-- ===== src/ArtifactNaming/Examples.antt =====
-- Names of archives as internal/artifactnaming/naming.go makes them.
use mathlib.Core.List.{reverse}
use vault_fleet.Prelude.{
  ◌≡◌, refl, false, inr, none, [], ◌++◌, codes, count_where, trim_space, text_elem, text_eq,
  to_lower,
}
use vault_fleet.ArtifactNaming.Sanitize.{sanitize_value}
use vault_fleet.ArtifactNaming.Template.{effective_templates, render_template, has_separator}
use vault_fleet.ArtifactNaming.Context.{Context, normalize_archive_format}
use vault_fleet.ArtifactNaming.Render.{Env, RenderInput, render_variables, metadata_of, render}
use vault_fleet.ArtifactNaming.Tokens.{is_slash}
use vault_fleet.ArtifactNaming.Safe.{IsName, Starts, sanitized_is_clean}
use vault_fleet.ArtifactNaming.Levels.{NamedTimes, values_add_no_level}

abbrev env : Env
env = record {
  clock = 7;
  date = λ t. codes "2026-01-02";
  time = λ t. codes "030405";
  datetime = λ t. codes "20260102-030405";
  base = λ p. p;
  join = λ d n. d ++ codes "/" ++ n;
}

-- An agent that is named like a path.
abbrev context : Context
context = record {
  agent_id = codes "a1";
  agent_name = codes "../../etc";
  policy_id = [];
  policy_name = codes "My site";
  context_name = [];
  archive_format = codes "zip";
  now = 0;
  sources = [];
  docker = none;
  database = none;
}

abbrev input : RenderInput
input = record {
  context = context;
  remote_dir_template = codes "x/{{agent_name}}";
  name_template = codes "{{policy_name}}.{{ext}}";
  use_recommended_defaults = false;
}

sanitized : sanitize_value (codes " ../a  b/") ≡ codes "a_b"
unfolding sanitize_value trim_space
sanitized = refl

rendered : render env input ≡ inr (metadata_of env input)
unfolding render trim_space effective_templates text_elem text_eq render_template render_variables
    normalize_archive_format to_lower
rendered = refl

rendered_path : (metadata_of env input).artifact_path ≡ codes "x/etc/My_site.zip"
unfolding render_template effective_templates trim_space render_variables text_eq
    normalize_archive_format to_lower
rendered_path = refl

sanitized_is_clean_example :
    IsName (sanitize_value (codes " ../a  b/"))
    × Starts (sanitize_value (codes " ../a  b/"))
    × Starts (reverse (sanitize_value (codes " ../a  b/")))
    × (sanitize_value (sanitize_value (codes " ../a  b/")) ≡ sanitize_value (codes " ../a  b/"))
sanitized_is_clean_example = sanitized_is_clean (codes " ../a  b/")

named : NamedTimes env
named = (
  (λ t. (refl, (refl, (refl, (refl, (refl, (refl, (refl, (refl, (refl, (refl, tt))))))))))),
  (λ t. (refl, (refl, (refl, (refl, (refl, (refl, tt))))))),
  λ t. (
    refl,
    (
      refl,
      (
        refl,
        (
          refl,
          (
            refl,
            (refl, (refl, (refl, (refl, (refl, (refl, (refl, (refl, (refl, (refl, tt)))))))))),
          ),
        ),
      ),
    ),
  ),
)

values_add_no_level_example :
    (count_where is_slash (metadata_of env input).remote_dir
      ≡ count_where is_slash (metadata_of env input).remote_dir_template)
    × (has_separator (metadata_of env input).artifact_name ≡ false)
values_add_no_level_example = values_add_no_level env input (metadata_of env input) named rendered
