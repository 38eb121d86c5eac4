-- ===== src/Rollout/Input/Ids.antt =====
-- What `normalizeIDs` of internal/master/agentrollout/service.go makes of a list of identifiers.
use vault_fleet.Prelude.{
  ◌≡◌, refl, ◌∙◌, ap, Bool, true, false, not, ◌&&◌, ◌||◌, inl, inr, List, [], ◌∷◌, ◌++◌, arith,
  Text, text_eq, text_eq_iff, text_elem, text_leb, trim_space, is_empty, Distinct, insert_sorted,
  sort_by, Bool-cases,
}
use vault_fleet.Rollout.Input.{distinct_ids, normalize_ids}

-- Each text is `<=` the next.
abbrev pub in_order : List Text → Bool
in_order [] = true
in_order (x ∷ []) = true
in_order (x ∷ y ∷ ys) = text_leb x y && in_order (y ∷ ys)

-- Some value of the list is this text once it is trimmed, and it is not empty.
unfoldable pub names : Text → List Text → Bool
names t [] = false
names t (v ∷ vs) = (not (is_empty (trim_space v)) && text_eq (trim_space v) t) || names t vs

leb_total : (s t : Text) → text_leb s t ≡ false → text_leb t s ≡ true
unfolding text_leb
leb_total [] t h = absurd (ground (arith, h))
leb_total (a ∷ s) [] h = refl
leb_total (a ∷ s) (b ∷ t) h = ground (arith, h, leb_total s t)

insert-in_order :
    (x : Text) (xs : List Text) → in_order xs ≡ true → in_order (insert_sorted text_leb x xs) ≡ true
insert-in_order x [] h = refl
insert-in_order x (y ∷ []) h = elim (Bool-cases (text_leb x y)) [
  | inl e ↦ rw (e, e) refl
  | inr e ↦ rw (e, leb_total x y e) refl
]
insert-in_order x (y ∷ z ∷ zs) h =
    let ih = insert-in_order x (z ∷ zs) in
    elim (Bool-cases (text_leb x y)) [
      | inl e ↦ rw (e, e) h
      | inr e ↦ elim (Bool-cases (text_leb x z)) [
        | inl e' ↦ ground (arith, e, e', h, ih, leb_total x y)
        | inr e' ↦ ground (arith, e, e', h, ih, leb_total x y)
      ]
    ]

sort-in_order : (xs : List Text) → in_order (sort_by text_leb xs) ≡ true
sort-in_order [] = refl
sort-in_order (x ∷ xs) = insert-in_order x (sort_by text_leb xs) (sort-in_order xs)

insert-elem :
    (t x : Text) (xs : List Text)
    → text_elem t (insert_sorted text_leb x xs) ≡ (text_eq x t || text_elem t xs)
unfolding text_elem
insert-elem t x [] = refl
insert-elem t x (y ∷ ys) = ground (arith, insert-elem t x ys)

sort-elem : (t : Text) (xs : List Text) → text_elem t (sort_by text_leb xs) ≡ text_elem t xs
unfolding text_elem
sort-elem t [] = refl
sort-elem t (x ∷ xs) =
    insert-elem t x (sort_by text_leb xs) ∙ ap (λ b. text_eq x t || b) (sort-elem t xs)

text_eq-false : (s t : Text) → text_eq s t ≡ false → text_eq t s ≡ false
text_eq-false s t h = ground (arith, h, text_eq_iff s t, text_eq_iff t s)

insert-Distinct :
    (x : Text) (xs : List Text)
    → text_elem x xs ≡ false
    → Distinct xs
    → Distinct (insert_sorted text_leb x xs)
unfolding text_elem
insert-Distinct x [] h d = (refl, tt)
insert-Distinct x (y ∷ ys) h d = elim (Bool-cases (text_leb x y)) [
  | inl e ↦ rw e (h, d)
  | inr e ↦ rw e (
    insert-elem y x ys ∙ ground (arith, text_eq-false y x, h, d.0),
    insert-Distinct x ys (ground (arith, h)) d.1,
  )
]

sort-Distinct : (xs : List Text) → Distinct xs → Distinct (sort_by text_leb xs)
sort-Distinct [] d = tt
sort-Distinct (x ∷ xs) d =
    insert-Distinct x (sort_by text_leb xs) (sort-elem x xs ∙ d.0) (sort-Distinct xs d.1)

append-elem :
    (t s : Text) (xs : List Text) → text_elem t (xs ++ s ∷ []) ≡ (text_elem t xs || text_eq s t)
unfolding text_elem
append-elem t s [] = ground arith
append-elem t s (x ∷ xs) = ground (arith, append-elem t s xs)

append-Distinct :
    (s : Text) (xs : List Text) → text_elem s xs ≡ false → Distinct xs → Distinct (xs ++ s ∷ [])
unfolding text_elem
append-Distinct s [] h d = (refl, tt)
append-Distinct s (x ∷ xs) h d = (
  append-elem x s xs ∙ ground (arith, text_eq-false x s, h, d.0),
  append-Distinct s xs (ground (arith, h)) d.1,
)

loop-Distinct : (vs result : List Text) → Distinct result → Distinct (distinct_ids result vs)
unfolding distinct_ids
loop-Distinct [] result d = d
loop-Distinct (v ∷ vs) result d =
    elim (Bool-cases (is_empty (trim_space v) || text_elem (trim_space v) result)) [
      | inl e ↦ rw e (loop-Distinct vs result d)
      | inr e ↦ rw e (
          loop-Distinct vs (result ++ trim_space v ∷ [])
            (append-Distinct (trim_space v) result (ground (arith, e)) d))
    ]

elem_same : (s t : Text) (xs : List Text) → text_eq s t ≡ true → text_elem s xs ≡ text_elem t xs
elem_same s t xs h = ap (λ z. text_elem z xs) ((text_eq_iff s t).0 h)

loop-elem :
    (t : Text) (result vs : List Text)
    → text_elem t (distinct_ids result vs) ≡ (text_elem t result || names t vs)
unfolding distinct_ids names
loop-elem t result [] = ground arith
loop-elem t result (v ∷ vs) =
    let s = trim_space v in
    elim (Bool-cases (is_empty s || text_elem s result)) [
      | inl e ↦ rw e (loop-elem t result vs ∙ ground (arith, e, elem_same s t result))
      | inr e ↦ rw e (
          loop-elem t (result ++ s ∷ []) vs
          ∙ ap (λ b. b || names t vs) (append-elem t s result)
          ∙ ground (arith, e))
    ]

-- The normalized identifiers are in order and different, and a text is among them exactly when it
-- is not empty and some value is this text once it is trimmed.
pub normalize_ids_lem :
    (vs : List Text)
    → (in_order (normalize_ids vs) ≡ true)
      × Distinct (normalize_ids vs)
      × ((t : Text) → text_elem t (normalize_ids vs) ≡ names t vs)
unfolding normalize_ids
normalize_ids_lem vs =
    let ids = distinct_ids [] vs in
    (
      sort-in_order ids,
      sort-Distinct ids (loop-Distinct vs [] tt),
      λ t. sort-elem t ids ∙ loop-elem t [] vs ∙ (unfold text_elem in refl),
    )
