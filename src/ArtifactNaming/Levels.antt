-- ===== src/ArtifactNaming/Levels.antt =====
-- That a backup's context cannot move its archive: what the values of the variables add to a rendered
-- name (internal/artifactnaming/naming.go).
use mathlib.Core.Sum.{inr-injective}
use vault_fleet.Prelude.{
  arith, ℕ, zero, suc, ◌-◌, ◌≡◌, refl, sym, ap, ◌∙◌, true, false, ◌||◌, ◌==◌, inl, inr, ◌⊎◌,
  Bool-cases, Option, none, some, List, [], ◌∷◌, ◌++◌, All, length, count_where, Text, text_eq,
}
use vault_fleet.ArtifactNaming.Sanitize.{sanitize_value}
use vault_fleet.ArtifactNaming.Template.{
  Piece, literal, variable, match_token, piece_at, pieces, literals, value_of, render_pieces,
  render_template, has_separator, NamingError, validate_template_syntax,
}
use vault_fleet.ArtifactNaming.Context.{Context}
use vault_fleet.ArtifactNaming.Render.{
  Env, render_variables, values_of, checked, RenderInput, ArtifactNamingMetadata, templates_of,
  remote_dir_of, artifact_name_of, artifact_path_of, metadata_of, render, validate_rendered_path,
  validate_rendered_filename, validate_rendered_remote_dir,
}
use vault_fleet.ArtifactNaming.Safe.{IsName, sanitize_value-Clean}
use vault_fleet.ArtifactNaming.Tokens.{is_slash, literals-slashes}

-- Values of name characters only.
abbrev pub AllNames : List (Text × Text) → Type 0
AllNames vs = All (λ v. IsName v.1) vs

value_of-IsName : (name : Text) (vs : List (Text × Text)) → AllNames vs → IsName (value_of name vs)
unfolding value_of
value_of-IsName name [] h = tt
value_of-IsName name (v ∷ vs) h = elim (Bool-cases (text_eq v.0 name)) [
  | inl e ↦ rw e (h.0)
  | inr e ↦ rw e (value_of-IsName name vs h.1)
]

slashes-IsName : (s t : Text) → IsName s → count_where is_slash (s ++ t) ≡ count_where is_slash t
slashes-IsName [] t h = refl
slashes-IsName (c ∷ s) t h = ground (arith, h.0, slashes-IsName s t h.1)

separator-IsName : (s t : Text) → IsName s → has_separator (s ++ t) ≡ has_separator t
unfolding has_separator
separator-IsName [] t h = refl
separator-IsName (c ∷ s) t h = ground (arith, h.0, separator-IsName s t h.1)

-- What values add to a rendered text: no slash and no separator.
record Inert (values : List (Text × Text)) (ps : List Piece) : Type 0 where
  slashes : count_where is_slash (render_pieces values ps) ≡ count_where is_slash (literals ps)
  separator : has_separator (render_pieces values ps) ≡ has_separator (literals ps)

render_pieces-Inert :
    (values : List (Text × Text)) (ps : List Piece) → AllNames values → Inert values ps
unfolding render_pieces literals has_separator
render_pieces-Inert values [] h = record { slashes = refl; separator = refl }
render_pieces-Inert values (literal c ∷ ps) h =
    let w = render_pieces-Inert values ps h in
    record { slashes = rw (w.slashes) refl; separator = rw (w.separator) refl }
render_pieces-Inert values (variable v ∷ ps) h =
    let w = render_pieces-Inert values ps h in
    let name = value_of-IsName v values h in
    let rest = render_pieces values ps in
    record {
      slashes = slashes-IsName (value_of v values) rest name ∙ w.slashes;
      separator = separator-IsName (value_of v values) rest name ∙ w.separator;
    }

piece_at-separator :
    (c : ℕ) (rest : List Piece) (after : Text × Text → List Piece) (o : Option (Text × Text))
    → (c == b'/' || c == 92) ≡ false
    → has_separator (literals rest) ≡ false
    → ((r : Text × Text) → has_separator (literals (after r)) ≡ false)
    → has_separator (literals (piece_at c rest after o)) ≡ false
unfolding has_separator literals
piece_at-separator c rest after none h k l = ground (arith, h, k)
piece_at-separator c rest after (some r) h k l = l r

-- The characters between the matches are characters of the template.
literals-separator :
    (k : ℕ) (t : Text) → has_separator t ≡ false → has_separator (literals (pieces k t)) ≡ false
unfolding has_separator literals pieces
literals-separator k [] h = refl
literals-separator (suc k) (c ∷ cs) h = literals-separator k cs (ground (arith, h))
literals-separator zero (c ∷ cs) h =
    piece_at-separator c (pieces zero cs) (λ r. pieces (length cs - length r.1) cs)
      (match_token (c ∷ cs)) (ground (arith, h)) (literals-separator zero cs (ground (arith, h)))
      λ r. literals-separator (length cs - length r.1) cs (ground (arith, h))

-- What the layouts of a time make has digits and '-' only.
abbrev pub NamedTimes : Env → Type 0
NamedTimes env =
    ((t : ℕ) → IsName (env.date t))
    × ((t : ℕ) → IsName (env.time t))
    × ((t : ℕ) → IsName (env.datetime t))

values_of-AllNames : (env : Env) (ctx : Context) → NamedTimes env → AllNames (values_of env ctx)
unfolding render_variables
values_of-AllNames env ctx h = (
  h.0 _,
  (
    h.1 _,
    (
      h.2 _,
      (
        clean _,
        (
          clean _,
          (
            clean _,
            (
              clean _,
              (
                clean _,
                (
                  clean _,
                  (
                    clean _,
                    (clean _, (clean _, (clean _, (clean _, (clean _, (clean _, (clean _, tt))))))),
                  ),
                ),
              ),
            ),
          ),
        ),
      ),
    ),
  ),
)
  where
    clean : (v : Text) → IsName (sanitize_value v)
    clean v = (sanitize_value-Clean v).name

checked-inr :
    {A : Type 0} (o : Option NamingError) (next : NamingError ⊎ A) (a : A)
    → checked o next ≡ inr a
    → (o ≡ none) × (next ≡ inr a)
checked-inr none next a h = (refl, h)
checked-inr (some e) next a h = absurd (ground (arith, h))

-- A template that is checked without separators has none.
checked_template : (t : Text) → validate_template_syntax t false ≡ none → has_separator t ≡ false
unfolding validate_template_syntax
checked_template t h = ground (arith, h)

-- Where a rendering succeeds and the layouts of times make name characters only: whatever the agent's,
-- the policy's, the containers' and the databases' names are, the rendered directory has as many
-- slashes as the text of its template, and the file name has no path separator.
pub values_add_no_level :
    (env : Env) (input : RenderInput) (m : ArtifactNamingMetadata)
    → NamedTimes env
    → render env input ≡ inr m
    → (count_where is_slash m.remote_dir ≡ count_where is_slash m.remote_dir_template)
      × (has_separator m.artifact_name ≡ false)
unfolding render render_template
values_add_no_level env input m h e =
    let values = values_of env input.context in
    let templates = templates_of input in
    let all = values_of-AllNames env input.context h in
    let first = checked-inr (validate_template_syntax templates.0 true) _ m e in
    let second = checked-inr (validate_template_syntax templates.1 false) _ m first.1 in
    let third = checked-inr (validate_rendered_remote_dir (remote_dir_of env input)) _ m second.1 in
    let fourth =
      checked-inr (validate_rendered_filename (artifact_name_of env input)) _ m third.1 in
    let fifth = checked-inr (validate_rendered_path (artifact_path_of env input)) _ m fourth.1 in
    let same = inr-injective (metadata_of env input) m fifth.1 in
    let directory = render_pieces-Inert values (pieces zero templates.0) all in
    let name = render_pieces-Inert values (pieces zero templates.1) all in
    (
      ap (λ x. count_where is_slash x.remote_dir) (sym same)
          ∙ directory.slashes
          ∙ literals-slashes zero templates.0
          ∙ ap (λ x. count_where is_slash x.remote_dir_template) same,
      ap (λ x. has_separator x.artifact_name) (sym same)
          ∙ name.separator
          ∙ literals-separator zero templates.1 (checked_template templates.1 second.0),
    )
