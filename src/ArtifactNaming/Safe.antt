-- ===== src/ArtifactNaming/Safe.antt =====
-- What a sanitized value of internal/artifactnaming/naming.go can be.
use mathlib.Core.List.{reverse, reverse_aux, reverse-reverse, reverse-cons, reverse-append}
use vault_fleet.Prelude.{
  arith, ℕ, ◌≡◌, refl, ap, Bool, true, false, inl, inr, Bool-cases, [], ◌∷◌, ◌++◌, All, Text,
  trim_left, trim_space, is_empty, if◌then◌else◌,
}
use vault_fleet.ArtifactNaming.Sanitize.{
  is_name_char, replaced, is_cut, trim_cut_left, trim_cut, or_value, sanitize_value,
}

abbrev pub IsName : Text → Type 0
IsName t = All (λ c. is_name_char c ≡ true) t

-- A text that does not start with one of "._-".
abbrev pub Starts : Text → Type 0
Starts [] = Unit {0}
Starts (c ∷ cs) = is_cut c ≡ false

reverse_aux-IsName : (s t : Text) → IsName s → IsName t → IsName (reverse_aux s t)
reverse_aux-IsName [] t h k = k
reverse_aux-IsName (c ∷ cs) t h k = reverse_aux-IsName cs (c ∷ t) h.1 (h.0, k)

reverse-IsName : (s : Text) → IsName s → IsName (reverse s)
reverse-IsName s h = reverse_aux-IsName s [] h tt

underscored : (b : Bool) (s : Text) → IsName s → IsName (if b then s else b'_' ∷ s)
underscored true s h = h
underscored false s h = (refl, h)

replaced-IsName : (last : Bool) (s : Text) → IsName (replaced last s)
unfolding replaced
replaced-IsName last [] = tt
replaced-IsName last (c ∷ cs) = elim (Bool-cases (is_name_char c)) [
  | inl e ↦ rw e (e, replaced-IsName false cs)
  | inr e ↦ rw e (underscored last (replaced true cs) (replaced-IsName true cs))
]

trim_cut_left-IsName : (s : Text) → IsName s → IsName (trim_cut_left s)
unfolding trim_cut_left
trim_cut_left-IsName [] h = tt
trim_cut_left-IsName (c ∷ cs) h = elim (Bool-cases (is_cut c)) [
  | inl e ↦ rw e (trim_cut_left-IsName cs h.1)
  | inr e ↦ rw e h
]

trim_cut_left-Starts : (s : Text) → Starts (trim_cut_left s)
unfolding trim_cut_left
trim_cut_left-Starts [] = tt
trim_cut_left-Starts (c ∷ cs) = elim (Bool-cases (is_cut c)) [
  | inl e ↦ rw e (trim_cut_left-Starts cs)
  | inr e ↦ rw e e
]

trim_cut_left_fixed : (s : Text) → Starts s → trim_cut_left s ≡ s
unfolding trim_cut_left
trim_cut_left_fixed [] h = refl
trim_cut_left_fixed (c ∷ cs) h = rw h refl

trim_cut_left-snoc :
    (s : Text) (c : ℕ) → is_cut c ≡ false → trim_cut_left (s ++ c ∷ []) ≡ trim_cut_left s ++ c ∷ []
unfolding trim_cut_left
trim_cut_left-snoc [] c h = rw h refl
trim_cut_left-snoc (d ∷ s) c h = elim (Bool-cases (is_cut d)) [
  | inl e ↦ rw e (trim_cut_left-snoc s c h)
  | inr e ↦ rw e refl
]

-- Trimming the end keeps the start.
end_trimmed-Starts : (s : Text) → Starts s → Starts (reverse (trim_cut_left (reverse s)))
unfolding trim_cut_left
end_trimmed-Starts [] h = tt
end_trimmed-Starts (c ∷ cs) h =
    rw
      (
        reverse-cons c cs,
        trim_cut_left-snoc (reverse cs) c h,
        reverse-append (trim_cut_left (reverse cs)) (c ∷ []),
      )
      h

trim_cut-Starts : (s : Text) → Starts (trim_cut s)
unfolding trim_cut
trim_cut-Starts s = end_trimmed-Starts (trim_cut_left s) (trim_cut_left-Starts s)

reverse-trim_cut-Starts : (s : Text) → Starts (reverse (trim_cut s))
unfolding trim_cut
reverse-trim_cut-Starts s =
    rw (reverse-reverse (trim_cut_left (reverse (trim_cut_left s))))
      (trim_cut_left-Starts (reverse (trim_cut_left s)))

trim_cut_fixed : (s : Text) → Starts s → Starts (reverse s) → trim_cut s ≡ s
unfolding trim_cut
trim_cut_fixed s h k =
    rw (trim_cut_left_fixed s h, trim_cut_left_fixed (reverse s) k, reverse-reverse s) refl

trim_cut-IsName : (s : Text) → IsName s → IsName (trim_cut s)
unfolding trim_cut
trim_cut-IsName s h =
    reverse-IsName _ (trim_cut_left-IsName _ (reverse-IsName _ (trim_cut_left-IsName s h)))

replaced_fixed : (s : Text) → IsName s → replaced false s ≡ s
unfolding replaced
replaced_fixed [] h = refl
replaced_fixed (c ∷ cs) h = rw (h.0) (ap (λ t. c ∷ t) (replaced_fixed cs h.1))

trim_left_fixed : (s : Text) → IsName s → trim_left s ≡ s
unfolding trim_left
trim_left_fixed [] h = refl
trim_left_fixed (c ∷ cs) h = ground (arith, h.0)

trim_space_fixed : (s : Text) → IsName s → trim_space s ≡ s
unfolding trim_space
trim_space_fixed s h =
    rw (trim_left_fixed s h, trim_left_fixed (reverse s) (reverse-IsName s h), reverse-reverse s)
      refl

-- A text that `sanitizeValue` may return.
pub record Clean (s : Text) : Type 0 where
  pub name : IsName s
  pub start : Starts s
  pub end : Starts (reverse s)

or_value-Clean : (s : Text) → IsName s → Starts s → Starts (reverse s) → Clean (or_value s)
or_value-Clean [] h k l = record {
  name = (refl, (refl, (refl, (refl, (refl, tt)))));
  start = refl;
  end = refl;
}
or_value-Clean (c ∷ cs) h k l = record { name = h; start = k; end = l }

pub sanitize_value-Clean : (v : Text) → Clean (sanitize_value v)
unfolding sanitize_value
sanitize_value-Clean v = elim (Bool-cases (is_empty (trim_space v))) [
  | inl e ↦ rw e (record { name = tt; start = tt; end = tt })
  | inr e ↦
      let s = replaced false (trim_space v) in
      rw e (
        or_value-Clean (trim_cut s) (trim_cut-IsName s (replaced-IsName false (trim_space v)))
          (trim_cut-Starts s) (reverse-trim_cut-Starts s))
]

sanitize_value_fixed : (s : Text) → Clean s → sanitize_value s ≡ s
unfolding sanitize_value trim_space
sanitize_value_fixed [] w = refl
sanitize_value_fixed (c ∷ cs) w =
    rw
      (
        trim_space_fixed (c ∷ cs) w.name,
        replaced_fixed (c ∷ cs) w.name,
        trim_cut_fixed (c ∷ cs) w.start w.end,
      )
      refl

-- Whatever the text is, its sanitized form has letters, digits, '.', '-' and '_' only, neither starts nor
-- ends with one of the last three, and is its own sanitized form.
pub sanitized_is_clean :
    (v : Text)
    → IsName (sanitize_value v)
      × Starts (sanitize_value v)
      × Starts (reverse (sanitize_value v))
      × (sanitize_value (sanitize_value v) ≡ sanitize_value v)
sanitized_is_clean v =
    let w = sanitize_value-Clean v in
    (w.name, w.start, w.end, sanitize_value_fixed (sanitize_value v) w)
