-- ===== src/ArtifactNaming/Render.antt =====
-- `Render`, `renderVariables` and the checks of rendered names of internal/artifactnaming/naming.go.
use vault_fleet.Prelude.{
  ℕ, Bool, true, false, ◌||◌, Option, none, some, List, [], ◌∷◌, ◌==◌, Text, codes, text_eq,
  trim_space, is_empty, if◌then◌else◌, inl, inr, ◌⊎◌,
}
use vault_fleet.ArtifactNaming.Sanitize.{sanitize_value, first_non_empty, has_control}
use vault_fleet.ArtifactNaming.Template.{
  NamingError, empty_directory, empty_name, empty_path, control_name, control_path,
  separator_in_name, dot_name, absolute_path, unsafe_segment, validate_template_syntax,
  effective_templates, render_template, has_separator, may_collide,
}
use vault_fleet.ArtifactNaming.Context.{
  Context, SourceType, source_type_text, docker_values, database_values, infer_source_type,
  infer_context_name, normalize_archive_format,
}

-- What the source takes from `time` and `filepath`: the clock, the three layouts of a UTC time,
-- `filepath.Base(filepath.Clean(path))`, and `filepath.ToSlash(filepath.Join(dir, name))`.
pub record Env : Type 0 where
  pub clock : ℕ
  pub date : ℕ → Text
  pub time : ℕ → Text
  pub datetime : ℕ → Text
  pub base : Text → Text
  pub join : Text → Text → Text

unfoldable pub render_variables : Env → Context → ℕ → Text → SourceType → Text → List (Text × Text)
unfolding first_non_empty docker_values database_values sanitize_value
render_variables env ctx now format type context_name =
    let docker = docker_values ctx in
    let database = database_values ctx in
    (codes "date", env.date now)
    ∷ (codes "time", env.time now)
    ∷ (codes "datetime", env.datetime now)
    ∷ (codes "agent_id", sanitize_value ctx.agent_id)
    ∷ (
      codes "agent_name",
      sanitize_value (first_non_empty (ctx.agent_name ∷ ctx.agent_id ∷ codes "agent" ∷ [])),
    )
    ∷ (codes "policy_id", sanitize_value ctx.policy_id)
    ∷ (codes "policy_name", sanitize_value ctx.policy_name)
    ∷ (codes "context_name", sanitize_value context_name)
    ∷ (codes "site_name", sanitize_value context_name)
    ∷ (codes "source_type", sanitize_value (source_type_text type))
    ∷ (codes "container_name", sanitize_value docker.container_name)
    ∷ (codes "compose_project", sanitize_value docker.compose_project)
    ∷ (codes "compose_service", sanitize_value docker.compose_service)
    ∷ (codes "database_engine", sanitize_value database.0)
    ∷ (codes "database_name", sanitize_value database.1)
    ∷ (codes "format", sanitize_value format)
    ∷ (codes "ext", sanitize_value format)
    ∷ []

-- `strings.Split(path, "/")`: the first segment and the others.
unfoldable pub split_path : Text → Text × List Text
split_path [] = ([], [])
split_path (c ∷ cs) =
    let rest = split_path cs in if c == b'/' then ([], rest.0 ∷ rest.1) else (c ∷ rest.0, rest.1)

abbrev pub is_unsafe : Text → Bool
is_unsafe s = is_empty s || text_eq s (codes ".") || text_eq s (codes "..")

unfoldable pub has_unsafe : List Text → Bool
has_unsafe [] = false
has_unsafe (s ∷ ss) = is_unsafe s || has_unsafe ss

abbrev pub is_absolute : Text → Bool
is_absolute [] = false
is_absolute (c ∷ cs) = c == b'/'

unfoldable pub validate_rendered_path : Text → Option NamingError
unfolding has_control split_path has_unsafe
validate_rendered_path path =
    let p = trim_space path in
    let segments = split_path p in
    if is_empty p
    then some empty_path
    else if is_absolute p
    then some absolute_path
    else if has_control p
    then some control_path
    else if has_unsafe (segments.0 ∷ segments.1)
    then some unsafe_segment
    else none

unfoldable pub validate_rendered_remote_dir : Text → Option NamingError
unfolding validate_rendered_path
validate_rendered_remote_dir path =
    let p = trim_space path in if is_empty p then some empty_directory else validate_rendered_path p

unfoldable pub validate_rendered_filename : Text → Option NamingError
unfolding has_control has_separator
validate_rendered_filename name =
    let n = trim_space name in
    if is_empty n
    then some empty_name
    else if has_control n
    then some control_name
    else if has_separator n
    then some separator_in_name
    else if text_eq n (codes ".") || text_eq n (codes "..")
    then some dot_name
    else none

pub record RenderInput : Type 0 where
  pub context : Context
  pub remote_dir_template : Text
  pub name_template : Text
  pub use_recommended_defaults : Bool

pub record ArtifactNamingMetadata : Type 0 where
  pub context_name : Text
  pub source_type : SourceType
  pub remote_dir : Text
  pub artifact_name : Text
  pub artifact_path : Text
  pub remote_dir_template : Text
  pub name_template : Text
  pub variables : List (Text × Text)
  pub possible_collision : Bool
  pub legacy : Bool

-- The first of some checks that finds an error stops.
abbrev pub checked : {A : Type 0} → Option NamingError → NamingError ⊎ A → NamingError ⊎ A
checked none next = next
checked (some e) next = inl e

abbrev pub time_of : Env → Context → ℕ
time_of env ctx = if ctx.now == 0 then env.clock else ctx.now

-- The values that `Render` gives the variables.
abbrev pub values_of : Env → Context → List (Text × Text)
values_of env ctx =
    let type = infer_source_type ctx.sources ctx.docker ctx.database in
    render_variables env ctx (time_of env ctx) (normalize_archive_format ctx.archive_format) type (
      first_non_empty
        (ctx.context_name ∷ infer_context_name env.base ctx type ∷ codes "backup" ∷ []))

abbrev pub templates_of : RenderInput → Text × Text × Bool
templates_of input =
    effective_templates input.remote_dir_template input.name_template input.use_recommended_defaults

abbrev pub remote_dir_of : Env → RenderInput → Text
remote_dir_of env input = render_template (templates_of input).0 (values_of env input.context)

abbrev pub artifact_name_of : Env → RenderInput → Text
artifact_name_of env input = render_template (templates_of input).1 (values_of env input.context)

abbrev pub artifact_path_of : Env → RenderInput → Text
artifact_path_of env input = env.join (remote_dir_of env input) (artifact_name_of env input)

abbrev pub metadata_of : Env → RenderInput → ArtifactNamingMetadata
metadata_of env input =
    let ctx = input.context in
    let type = infer_source_type ctx.sources ctx.docker ctx.database in
    record {
      context_name = sanitize_value (
          first_non_empty
            (ctx.context_name ∷ infer_context_name env.base ctx type ∷ codes "backup" ∷ []));
      source_type = type;
      remote_dir = remote_dir_of env input;
      artifact_name = artifact_name_of env input;
      artifact_path = artifact_path_of env input;
      remote_dir_template = (templates_of input).0;
      name_template = (templates_of input).1;
      variables = values_of env ctx;
      possible_collision = may_collide (templates_of input).1;
      legacy = (templates_of input).2;
    }

unfoldable pub render : Env → RenderInput → NamingError ⊎ ArtifactNamingMetadata
unfolding validate_template_syntax validate_rendered_remote_dir validate_rendered_filename
    validate_rendered_path
render env input = checked (validate_template_syntax (templates_of input).0 true) (
    checked (validate_template_syntax (templates_of input).1 false) (
      checked (validate_rendered_remote_dir (remote_dir_of env input)) (
        checked (validate_rendered_filename (artifact_name_of env input)) (
          checked (validate_rendered_path (artifact_path_of env input))
            (inr (metadata_of env input))))))

abbrev pub recommended_preview : Env → RenderInput → NamingError ⊎ ArtifactNamingMetadata
recommended_preview env input = render env (record input { use_recommended_defaults = true })
