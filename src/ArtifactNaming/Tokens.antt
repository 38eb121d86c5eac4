-- ===== src/ArtifactNaming/Tokens.antt =====
-- What the matches of `tokenPattern` take of a template (internal/artifactnaming/naming.go): braces,
-- spaces and a word, so that a template has its slashes between the matches.
use mathlib.Core.Path.{subst}
use mathlib.Core.Option.{some-injective}
use vault_fleet.Prelude.{
  arith, ℕ, zero, suc, ◌-◌, ◌+◌, ◌≡◌, refl, sym, ap, ◌∙◌, Bool, true, false, ◌==◌, inl, inr,
  Bool-cases, Option, none, some, [], ◌∷◌, ◌++◌, length, length-append, drop, count_where, Text,
  is_empty,
}
use vault_fleet.ArtifactNaming.Template.{
  is_pattern_space, skip_spaces, is_word_char, take_word, after_pair, closed_token, opened_token,
  match_token, piece_at, pieces, literals,
}

abbrev pub is_slash : ℕ → Bool
is_slash c = c == b'/'

-- The second text is the end of the first, and no slash comes before it.
abbrev EndsWith : Text → Text → Type 0
EndsWith t rest = (front : Text) × (t ≡ front ++ rest) × (count_where is_slash front ≡ 0)

cons-EndsWith : (c : ℕ) (t r : Text) → is_slash c ≡ false → EndsWith t r → EndsWith (c ∷ t) r
cons-EndsWith c t r h w = (c ∷ w.0, ap (λ x. c ∷ x) (w.1), rw h (w.2))

slashes_append :
    (s t : Text) → count_where is_slash (s ++ t) ≡ count_where is_slash s + count_where is_slash t
slashes_append [] t = omega arith
slashes_append (c ∷ s) t = ground (arith, slashes_append s t)

append_assoc : (s t u : Text) → s ++ (t ++ u) ≡ (s ++ t) ++ u
append_assoc [] t u = refl
append_assoc (c ∷ s) t u = ap (λ x. c ∷ x) (append_assoc s t u)

EndsWith-trans : (t u v : Text) → EndsWith t u → EndsWith u v → EndsWith t v
EndsWith-trans t u v p q = (
  p.0 ++ q.0,
  p.1 ∙ ap (λ x. p.0 ++ x) (q.1) ∙ append_assoc p.0 q.0 v,
  slashes_append p.0 q.0 ∙ rw (p.2, q.2) refl,
)

space_no_slash : (c : ℕ) → is_pattern_space c ≡ true → is_slash c ≡ false
space_no_slash c h = ground arith

word_no_slash : (c : ℕ) → is_word_char c ≡ true → is_slash c ≡ false
word_no_slash c h = ground arith

skip_spaces-EndsWith : (t : Text) → EndsWith t (skip_spaces t)
unfolding skip_spaces
skip_spaces-EndsWith [] = ([], refl, refl)
skip_spaces-EndsWith (c ∷ cs) = elim (Bool-cases (is_pattern_space c)) [
  | inl e ↦
      rw e (cons-EndsWith c cs (skip_spaces cs) (space_no_slash c e) (skip_spaces-EndsWith cs))
  | inr e ↦ rw e ([], refl, refl)
]

take_word-EndsWith : (t : Text) → EndsWith t (take_word t).1
unfolding take_word
take_word-EndsWith [] = ([], refl, refl)
take_word-EndsWith (c ∷ cs) = elim (Bool-cases (is_word_char c)) [
  | inl e ↦ rw e (cons-EndsWith c cs (take_word cs).1 (word_no_slash c e) (take_word-EndsWith cs))
  | inr e ↦ rw e ([], refl, refl)
]

-- Two equal characters that are no slashes.
after_pair-EndsWith :
    (b : ℕ) (t u : Text) → is_slash b ≡ false → after_pair b t ≡ some u → EndsWith t u
after_pair-EndsWith b [] u h e = absurd (ground (arith, e))
after_pair-EndsWith b (c ∷ []) u h e = absurd (ground (arith, e))
after_pair-EndsWith b (c ∷ d ∷ cs) u h e = (c ∷ d ∷ [], ground (arith, e), ground (arith, e, h))

closed_token-EndsWith :
    (name t : Text) (r : Text × Text)
    → closed_token name (after_pair b'}' t) ≡ some r
    → EndsWith t r.1
closed_token-EndsWith name t r h = go (after_pair b'}' t) refl h
  where
    go : (o : Option Text) → after_pair b'}' t ≡ o → closed_token name o ≡ some r → EndsWith t r.1
    go none p q = absurd (ground (arith, q))
    go (some u) p q = elim (Bool-cases (is_empty name)) [
      | inl e ↦ absurd (ground (arith, rw e at q))
      | inr e ↦
          subst (λ x. EndsWith t x.1) (some-injective (name, u) r (rw e at q))
            (after_pair-EndsWith b'}' t u refl p)
    ]

-- The first of two equal characters that are no slashes, and the rest.
after_pair-cons :
    (b c : ℕ) (cs u : Text)
    → is_slash b ≡ false
    → after_pair b (c ∷ cs) ≡ some u
    → (is_slash c ≡ false) × EndsWith cs u
after_pair-cons b c [] u h e = absurd (ground (arith, e))
after_pair-cons b c (d ∷ ds) u h e =
    (ground (arith, e, h), (d ∷ [], ground (arith, e), ground (arith, e, h)))

opened_token-EndsWith :
    (u : Text) (r : Text × Text) → opened_token (some u) ≡ some r → EndsWith u r.1
opened_token-EndsWith u r h =
    let spaces = skip_spaces u in
    let word = take_word spaces in
    EndsWith-trans u spaces r.1 (skip_spaces-EndsWith u) (
      EndsWith-trans spaces word.1 r.1 (take_word-EndsWith spaces) (
        EndsWith-trans word.1 (skip_spaces word.1) r.1 (skip_spaces-EndsWith word.1)
          (closed_token-EndsWith word.0 (skip_spaces word.1) r h)))

-- A match has no slash.
match_token-EndsWith :
    (c : ℕ) (cs : Text) (r : Text × Text)
    → match_token (c ∷ cs) ≡ some r
    → (is_slash c ≡ false) × EndsWith cs r.1
unfolding match_token
match_token-EndsWith c cs r h = go (after_pair b'{' (c ∷ cs)) refl h
  where
    go :
        (o : Option Text)
        → after_pair b'{' (c ∷ cs) ≡ o
        → opened_token o ≡ some r
        → (is_slash c ≡ false) × EndsWith cs r.1
    go none p q = absurd (ground (arith, q))
    go (some u) p q =
        let pair = after_pair-cons b'{' c cs u refl p in
        (pair.0, EndsWith-trans cs u r.1 (pair.1) (opened_token-EndsWith u r q))

drop_front :
    (front rest : Text) → drop (length (front ++ rest) - length rest) (front ++ rest) ≡ rest
drop_front front rest =
    ap (λ n. drop n (front ++ rest)) (omega (arith, length-append front rest)) ∙ drop_length front
  where
    drop_length : (f : Text) → drop (length f) (f ++ rest) ≡ rest
    drop_length [] = refl
    drop_length (c ∷ cs) = drop_length cs

-- Passing over a match passes over no slash.
slashes_passed :
    (cs rest : Text)
    → EndsWith cs rest
    → count_where is_slash (drop (length cs - length rest) cs) ≡ count_where is_slash cs
slashes_passed cs rest w =
    subst (λ t. count_where is_slash (drop (length t - length rest) t) ≡ count_where is_slash t)
      (sym (w.1))
      (ap (count_where is_slash) (drop_front w.0 rest)
        ∙ omega (arith, slashes_append w.0 rest, w.2))

piece_at-slashes :
    (c : ℕ) (cs : Text) (o : Option (Text × Text))
    → match_token (c ∷ cs) ≡ o
    → ((k : ℕ) → count_where is_slash (literals (pieces k cs)) ≡ count_where is_slash (drop k cs))
    → count_where is_slash
        (literals (piece_at c (pieces zero cs) (λ r. pieces (length cs - length r.1) cs) o))
      ≡ count_where is_slash (c ∷ cs)
unfolding literals
piece_at-slashes c cs none e h = rw (h zero) refl
piece_at-slashes c cs (some r) e h =
    let w = match_token-EndsWith c cs r e in
    rw (w.0) (h (length cs - length r.1) ∙ slashes_passed cs r.1 (w.1))

-- The characters between the matches have the slashes of the template that is left to read.
pub literals-slashes :
    (k : ℕ) (t : Text)
    → count_where is_slash (literals (pieces k t)) ≡ count_where is_slash (drop k t)
unfolding literals pieces
literals-slashes zero [] = refl
literals-slashes (suc k) [] = refl
literals-slashes (suc k) (c ∷ cs) = literals-slashes k cs
literals-slashes zero (c ∷ cs) =
    piece_at-slashes c cs (match_token (c ∷ cs)) refl λ k. literals-slashes k cs
