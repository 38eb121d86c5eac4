-- ===== src/ArtifactNaming/Sanitize.antt =====
-- `sanitizeValue`, `hasControl` and `firstNonEmpty` of internal/artifactnaming/naming.go.
use mathlib.Core.List.{reverse}
use vault_fleet.Prelude.{
  ℕ, Bool, true, false, ◌&&◌, ◌||◌, List, [], ◌∷◌, ltb, leb, ◌==◌, Text, codes, trim_space,
  is_empty, if◌then◌else◌,
}

abbrev pub is_letter_or_digit : ℕ → Bool
is_letter_or_digit c =
    (leb b'a' c && leb c b'z') || (leb b'A' c && leb c b'Z') || (leb b'0' c && leb c b'9')

abbrev pub is_name_char : ℕ → Bool
is_name_char c = is_letter_or_digit c || c == b'.' || c == b'-' || c == b'_'

-- The loop; the flag is `lastUnderscore`.
unfoldable pub replaced : Bool → Text → Text
replaced last [] = []
replaced last (c ∷ cs) =
    let kept = replaced false cs in
    let run = replaced true cs in
    if is_name_char c then c ∷ kept else if last then run else b'_' ∷ run

-- The cut set "._-".
abbrev pub is_cut : ℕ → Bool
is_cut c = c == b'.' || c == b'_' || c == b'-'

unfoldable pub trim_cut_left : Text → Text
trim_cut_left [] = []
trim_cut_left (c ∷ cs) = if is_cut c then trim_cut_left cs else c ∷ cs

-- `strings.Trim(s, "._-")`.
unfoldable pub trim_cut : Text → Text
unfolding trim_cut_left
trim_cut s = reverse (trim_cut_left (reverse (trim_cut_left s)))

abbrev pub or_value : Text → Text
or_value [] = codes "value"
or_value (c ∷ cs) = c ∷ cs

unfoldable pub sanitize_value : Text → Text
unfolding replaced trim_cut
sanitize_value value =
    let v = trim_space value in if is_empty v then [] else or_value (trim_cut (replaced false v))

unfoldable pub has_control : Text → Bool
has_control [] = false
has_control (c ∷ cs) = ltb c 32 || c == 127 || has_control cs

unfoldable pub first_non_empty : List Text → Text
first_non_empty [] = []
first_non_empty (v ∷ vs) = if is_empty (trim_space v) then first_non_empty vs else trim_space v
