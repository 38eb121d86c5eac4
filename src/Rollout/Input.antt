-- ===== src/Rollout/Input.antt =====
-- The input of a rollout: `normalizeCreateInput` and the normal forms of identifiers and tags of
-- internal/master/agentrollout/service.go.
pub mod Bounds
pub mod Ids
use vault_fleet.Prelude.{
  ℕ, Bool, true, false, not, ◌&&◌, ◌||◌, Option, none, some, List, [], ◌∷◌, ◌++◌, ℤ,
  positive_or_default, ltb, leb, ◌==◌, Text, codes, text_eq, text_elem, text_leb, trim_space,
  to_lower, is_empty, if◌then◌else◌, sort_by, length,
}
use vault_fleet.Engine.{Error, no_targets, message, Result, ok, err}
use vault_fleet.Rollout.Model.{
  default_canary_count, default_batch_size, max_canary_count, max_batch_size,
}

pub record CreateInput : Type 0 where
  pub target_version : Text
  pub github_repo : Text
  pub target_tags : List Text
  pub target_agent_ids : List Text
  pub canary_count : ℤ
  pub batch_size : ℤ
  pub actor : List Text

-- The input after `normalizeCreateInput`: the counts are positive.
pub record NormalInput : Type 0 where
  pub target_version : Text
  pub github_repo : Text
  pub target_tags : List Text
  pub target_agent_ids : List Text
  pub canary_count : ℕ
  pub batch_size : ℕ
  pub actor : List Text

-- The loop of `normalizeIDs`; `result` holds the texts seen, in order.
unfoldable pub distinct_ids : List Text → List Text → List Text
distinct_ids result [] = result
distinct_ids result (v ∷ vs) =
    let t = trim_space v in
    distinct_ids (if is_empty t || text_elem t result then result else result ++ t ∷ []) vs

unfoldable pub normalize_ids : List Text → List Text
unfolding distinct_ids
normalize_ids values = sort_by text_leb (distinct_ids [] values)

abbrev pub is_tag_char : ℕ → Bool
is_tag_char c =
    (leb b'a' c && leb c b'z')
    || (leb b'0' c && leb c b'9')
    || c == b'-'
    || c == b'_'
    || c == b'.'
    || c == b':'

unfoldable pub all_tag_chars : Text → Bool
all_tag_chars [] = true
all_tag_chars (c ∷ cs) = is_tag_char c && all_tag_chars cs

unfoldable pub tag_too_long : Text
tag_too_long = codes "tag is too long"

unfoldable pub tag_unsupported : Text
tag_unsupported = codes "tag contains unsupported characters"

-- The loop of `normalizeTags`.
unfoldable pub distinct_tags : List Text → List Text → Result (List Text)
unfolding all_tag_chars
distinct_tags result [] = ok result
distinct_tags result (v ∷ vs) =
    let tag = to_lower (trim_space v) in
    let rest =
      distinct_tags (if is_empty tag || text_elem tag result then result else result ++ tag ∷ [])
        vs in
    if is_empty tag
    then rest
    else if ltb 40 (length tag)
    then err (message tag_too_long)
    else if all_tag_chars tag
    then rest
    else err (message tag_unsupported)

abbrev pub sorted_result : Result (List Text) → Result (List Text)
sorted_result (ok tags) = ok (sort_by text_leb tags)
sorted_result (err e) = err e

unfoldable pub normalize_tags : List Text → Result (List Text)
unfolding distinct_tags
normalize_tags values = sorted_result (distinct_tags [] values)

unfoldable pub version_required : Text
version_required = codes "target version is required"

unfoldable pub canary_too_large : Text
canary_too_large = codes "canary count cannot exceed 10"

unfoldable pub batch_too_large : Text
batch_too_large = codes "batch size cannot exceed 50"

unfoldable pub check_normal : NormalInput → Result NormalInput
check_normal input =
    if is_empty input.target_version
    then err (message version_required)
    else if is_empty input.target_agent_ids && is_empty input.target_tags
    then err no_targets
    else if ltb max_canary_count input.canary_count
    then err (message canary_too_large)
    else if ltb max_batch_size input.batch_size
    then err (message batch_too_large)
    else ok input

unfoldable pub normalize_with : CreateInput → Result (List Text) → Result NormalInput
unfolding check_normal
normalize_with input (err e) = err e
normalize_with input (ok tags) = check_normal (record {
  target_version = trim_space input.target_version;
  github_repo = trim_space input.github_repo;
  target_tags = tags;
  target_agent_ids = normalize_ids input.target_agent_ids;
  canary_count = positive_or_default input.canary_count default_canary_count;
  batch_size = positive_or_default input.batch_size default_batch_size;
  actor = input.actor;
})

unfoldable pub normalize_create_input : CreateInput → Result NormalInput
unfolding normalize_with
normalize_create_input input = normalize_with input (normalize_tags input.target_tags)
