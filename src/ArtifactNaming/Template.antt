-- ===== src/ArtifactNaming/Template.antt =====
-- Templates of internal/artifactnaming/naming.go: `tokenPattern`, which is `{{\s*([a-zA-Z0-9_]+)\s*}}`,
-- `validateTemplateSyntax`, `effectiveTemplates`, `renderTemplate` and `collisionWarnings`. No
-- character is in two of the pattern's classes, so that a match is found without going back.
use vault_fleet.Prelude.{
  ℕ, zero, suc, ◌-◌, Bool, true, false, not, ◌&&◌, ◌||◌, Option, none, some, List, [], ◌∷◌, ◌++◌,
  ◌==◌, length, Text, codes, text_eq, text_elem, trim_space, is_empty, if◌then◌else◌,
}
use vault_fleet.ArtifactNaming.Sanitize.{is_letter_or_digit, has_control}

-- A template as the matches of the pattern and the characters between them.
pub data Piece : Type 0 where
  literal : ℕ → Piece
  variable : Text → Piece

abbrev pub is_pattern_space : ℕ → Bool
is_pattern_space c = c == 9 || c == 10 || c == 12 || c == 13 || c == 32

unfoldable pub skip_spaces : Text → Text
skip_spaces [] = []
skip_spaces (c ∷ cs) = if is_pattern_space c then skip_spaces cs else c ∷ cs

abbrev pub is_word_char : ℕ → Bool
is_word_char c = is_letter_or_digit c || c == b'_'

-- The longest word at the start of a text, and what follows it.
unfoldable pub take_word : Text → Text × Text
take_word [] = ([], [])
take_word (c ∷ cs) =
    let rest = take_word cs in if is_word_char c then (c ∷ rest.0, rest.1) else ([], c ∷ cs)

-- The text after two equal characters.
abbrev pub after_pair : ℕ → Text → Option Text
after_pair b [] = none
after_pair b (c ∷ []) = none
after_pair b (c ∷ d ∷ cs) = if c == b && d == b then some cs else none

abbrev pub closed_token : Text → Option Text → Option (Text × Text)
closed_token name none = none
closed_token name (some rest) = if is_empty name then none else some (name, rest)

abbrev pub opened_token : Option Text → Option (Text × Text)
opened_token none = none
opened_token (some t) =
    let word = take_word (skip_spaces t) in
    closed_token word.0 (after_pair b'}' (skip_spaces word.1))

-- A match at the start of a text: the variable's name, and what follows the match.
unfoldable pub match_token : Text → Option (Text × Text)
unfolding skip_spaces take_word
match_token t = opened_token (after_pair b'{' t)

-- The pieces from a character on: itself, or a match that starts with it.
abbrev pub piece_at :
    ℕ → List Piece → (Text × Text → List Piece) → Option (Text × Text) → List Piece
piece_at c rest after none = literal c ∷ rest
piece_at c rest after (some r) = variable r.0 ∷ after r

-- The matches from left to right; the first argument counts the characters of a match to pass over.
unfoldable pub pieces : ℕ → Text → List Piece
unfolding match_token
pieces skip [] = []
pieces (suc skip) (c ∷ cs) = pieces skip cs
pieces zero (c ∷ cs) =
    piece_at c (pieces zero cs) (λ r. pieces (length cs - length r.1) cs) (match_token (c ∷ cs))

-- `ReplaceAllString(template, "")`.
unfoldable pub literals : List Piece → Text
literals [] = []
literals (literal c ∷ ps) = c ∷ literals ps
literals (variable v ∷ ps) = literals ps

unfoldable pub variables : List Piece → List Text
variables [] = []
variables (literal c ∷ ps) = variables ps
variables (variable v ∷ ps) = v ∷ variables ps

-- `values[name]`.
unfoldable pub value_of : Text → List (Text × Text) → Text
value_of name [] = []
value_of name (v ∷ vs) = if text_eq v.0 name then v.1 else value_of name vs

unfoldable pub render_pieces : List (Text × Text) → List Piece → Text
unfolding value_of
render_pieces values [] = []
render_pieces values (literal c ∷ ps) = c ∷ render_pieces values ps
render_pieces values (variable v ∷ ps) = value_of v values ++ render_pieces values ps

unfoldable pub render_template : Text → List (Text × Text) → Text
unfolding pieces render_pieces
render_template template values = render_pieces values (pieces zero template)

-- `strings.Contains` of two equal characters.
unfoldable pub has_pair : ℕ → Text → Bool
has_pair b [] = false
has_pair b (c ∷ cs) =
    let rest = has_pair b cs in elim (after_pair b (c ∷ cs)) [ none ↦ rest | some t ↦ true ]

abbrev pub has_braces : Text → Bool
has_braces t = has_pair b'{' t || has_pair b'}' t

-- `strings.ContainsAny(s, "/\")`.
unfoldable pub has_separator : Text → Bool
has_separator [] = false
has_separator (c ∷ cs) = c == b'/' || c == 92 || has_separator cs

abbrev pub supported_variables : List Text
supported_variables =
    codes "date"
    ∷ codes "time"
    ∷ codes "datetime"
    ∷ codes "agent_id"
    ∷ codes "agent_name"
    ∷ codes "policy_id"
    ∷ codes "policy_name"
    ∷ codes "context_name"
    ∷ codes "site_name"
    ∷ codes "source_type"
    ∷ codes "container_name"
    ∷ codes "compose_project"
    ∷ codes "compose_service"
    ∷ codes "database_engine"
    ∷ codes "database_name"
    ∷ codes "format"
    ∷ codes "ext"
    ∷ []

unfoldable pub unsupported : List Text → Option Text
unsupported [] = none
unsupported (v ∷ vs) = if text_elem v supported_variables then unsupported vs else some v

pub data NamingError : Type 0 where
  template_required template_control name_separators invalid_token : NamingError
  unsupported_variable : Text → NamingError
  empty_directory empty_name empty_path control_name control_path : NamingError
  separator_in_name dot_name absolute_path unsafe_segment : NamingError

-- The error of a template, if it has one.
unfoldable pub validate_template_syntax : Text → Bool → Option NamingError
unfolding has_separator pieces unsupported has_pair literals variables
validate_template_syntax template allow_separators =
    let found = pieces zero template in
    if is_empty (trim_space template)
    then some template_required
    else if has_control template
    then some template_control
    else if not allow_separators && has_separator template
    then some name_separators
    else elim (unsupported (variables found)) [
      | some v ↦ some (unsupported_variable v)
      | none ↦
          if has_braces template && has_braces (literals found) then some invalid_token else none
    ]

abbrev pub legacy_remote_dir_template : Text
legacy_remote_dir_template = codes "artifacts"

abbrev pub legacy_archive_name_template : Text
legacy_archive_name_template = codes "backup-{{datetime}}.{{ext}}"

abbrev pub recommended_remote_dir_template : Text
recommended_remote_dir_template = codes "archives/{{agent_name}}/{{context_name}}/{{date}}"

abbrev pub recommended_archive_name_template : Text
recommended_archive_name_template = codes "{{context_name}}_{{agent_name}}_{{datetime}}.{{ext}}"

abbrev pub text_or : Text → Text → Text
text_or [] fallback = fallback
text_or (c ∷ cs) fallback = c ∷ cs

-- The two templates, and whether they are the legacy ones.
unfoldable pub effective_templates : Text → Text → Bool → Text × Text × Bool
effective_templates remote_template name_template recommended =
    let remote = trim_space remote_template in
    let name = trim_space name_template in
    if not recommended && is_empty remote && is_empty name
    then (legacy_remote_dir_template, legacy_archive_name_template, true)
    else (
      text_or remote recommended_remote_dir_template,
      text_or name recommended_archive_name_template,
      false,
    )

-- `strings.HasPrefix`.
unfoldable pub has_prefix : Text → Text → Bool
has_prefix [] t = true
has_prefix (p ∷ ps) [] = false
has_prefix (p ∷ ps) (c ∷ cs) = p == c && has_prefix ps cs

-- `strings.Contains`.
unfoldable pub contains : Text → Text → Bool
unfolding has_prefix
contains p [] = is_empty p
contains p (c ∷ cs) = has_prefix p (c ∷ cs) || contains p cs

-- Does `collisionWarnings` warn?
unfoldable pub may_collide : Text → Bool
unfolding contains
may_collide template = not (
    contains (codes "{{datetime}}") template
    || contains (codes "{{date}}") template
    || contains (codes "{{time}}") template)
