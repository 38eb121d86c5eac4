-- ===== src/TaskLogs/Pages.antt =====
-- Reading a task log page by page with `Get` of internal/master/tasklogs/buffer.go.
use mathlib.Core.Path.{subst}
use vault_fleet.Prelude.{
  ℕ, zero, suc, ◌-◌, ◌≤◌, ◌≡◌, refl, sym, ap, Bool, true, false, inl, inr, List, [], ◌∷◌, ◌++◌,
  arith, length, length-take-le, take, drop, All, where_rows, ℤ, pos, negsuc, ltb_int,
  ltb_int_irrefl, ltb_int_trans, ltb_int_asym, ltb_int-false_trans, Bool-cases,
}
use vault_fleet.TaskLogs.Model.{TaskLogPayload, Entry}
use vault_fleet.TaskLogs.Buffer.{lines_after, limit_of, snapshot_of}

abbrev pub newer : ℤ → TaskLogPayload → Bool
newer after p = ltb_int after p.sequence

-- The sequences rise from line to line.
abbrev pub Ascending : List TaskLogPayload → Type 0
Ascending [] = Unit {0}
Ascending (p ∷ ps) = All (λ q. newer p.sequence q ≡ true) ps × Ascending ps

-- Where the next page starts: after the last line of this one.
abbrev pub last_sequence : ℤ → List TaskLogPayload → ℤ
last_sequence after [] = after
last_sequence after (p ∷ ps) = last_sequence p.sequence ps

-- What a client has read after `k` pages.
unfoldable pub pages : ℕ → ℤ → ℤ → Entry → List TaskLogPayload
unfolding lines_after limit_of
pages zero after limit e = []
pages (suc k) after limit e =
    let page = (snapshot_of e after limit).lines in
    page ++ pages k (last_sequence after page) limit e

lines_after-take :
    (after : ℤ) (n : ℕ) (ps : List TaskLogPayload)
    → lines_after after n ps ≡ take n (where_rows (newer after) ps)
unfolding lines_after
lines_after-take after zero ps = refl
lines_after-take after (suc n) [] = refl
lines_after-take after (suc n) (p ∷ ps) = elim (Bool-cases (newer after p)) [
  | inl e ↦ rw e (ap (λ qs. p ∷ qs) (lines_after-take after n ps))
  | inr e ↦ rw e (lines_after-take after (suc n) ps)
]

where_rows-all :
    (a : ℤ) (ps : List TaskLogPayload)
    → All (λ q. newer a q ≡ true) ps
    → where_rows (newer a) ps ≡ ps
where_rows-all a [] h = refl
where_rows-all a (p ∷ ps) h = rw (h.0) (ap (λ qs. p ∷ qs) (where_rows-all a ps h.1))

All-newer :
    (a b : ℤ) (ps : List TaskLogPayload)
    → ltb_int a b ≡ true
    → All (λ q. newer b q ≡ true) ps
    → All (λ q. newer a q ≡ true) ps
All-newer a b [] h k = tt
All-newer a b (p ∷ ps) h k = (ltb_int_trans a b p.sequence h k.0, All-newer a b ps h k.1)

-- After a page of newer lines, the rest is what is newer than its last line.
abbrev Continues : ℤ → ℕ → List TaskLogPayload → List TaskLogPayload → Type 0
Continues a n found ps =
    (where_rows (newer (last_sequence a (take n found))) ps ≡ drop n found)
    × (ltb_int (last_sequence a (take n found)) a ≡ false)

Continues-all :
    (a : ℤ) (n : ℕ) (ps : List TaskLogPayload)
    → Ascending ps
    → All (λ q. newer a q ≡ true) ps
    → Continues a n ps ps
Continues-all a zero ps h k = (where_rows-all a ps k, ltb_int_irrefl a)
Continues-all a (suc n) [] h k = (refl, ltb_int_irrefl a)
Continues-all a (suc n) (p ∷ ps) h k =
    let rest = Continues-all p.sequence n ps h.1 h.0 in
    (
      rw (rest.1) (rest.0),
      ltb_int-false_trans a p.sequence _ (ltb_int_asym a p.sequence k.0) rest.1,
    )

Continues-newer :
    (a : ℤ) (n : ℕ) (ps : List TaskLogPayload)
    → Ascending ps
    → Continues a n (where_rows (newer a) ps) ps
Continues-newer a zero [] h = (refl, ltb_int_irrefl a)
Continues-newer a (suc n) [] h = (refl, ltb_int_irrefl a)
Continues-newer a n (p ∷ ps) h = elim (Bool-cases (newer a p)) [
  | inl e ↦
      let all : All (λ q. newer a q ≡ true) (p ∷ ps) = (e, All-newer a p.sequence ps e h.0) in
      subst (λ w. Continues a n w (p ∷ ps)) (sym (where_rows-all a (p ∷ ps) all))
        (Continues-all a n (p ∷ ps) h all)
  | inr e ↦
      let rest = Continues-newer a n ps h.1 in
      let skips : where_rows (newer a) (p ∷ ps) ≡ where_rows (newer a) ps = rw e refl in
      subst (λ w. Continues a n w (p ∷ ps)) (sym skips)
        (rw (ltb_int-false_trans p.sequence a _ e rest.1) rest)
]

limit_of-positive : (limit : ℤ) → 1 ≤ limit_of limit
unfolding limit_of
limit_of-positive (pos zero) = omega arith
limit_of-positive (pos (suc n)) = ground arith
limit_of-positive (negsuc n) = omega arith

limit_of-small : (limit : ℤ) → limit_of limit ≤ 1000
unfolding limit_of
limit_of-small (pos zero) = omega arith
limit_of-small (pos (suc n)) = ground arith
limit_of-small (negsuc n) = omega arith

take-drop : (n : ℕ) (ps : List TaskLogPayload) → take n ps ++ drop n ps ≡ ps
take-drop zero ps = refl
take-drop (suc n) [] = refl
take-drop (suc n) (p ∷ ps) = ap (λ qs. p ∷ qs) (take-drop n ps)

length-drop : (n : ℕ) (ps : List TaskLogPayload) → length (drop n ps) ≡ length ps - n
length-drop zero ps = omega arith
length-drop (suc n) [] = omega arith
length-drop (suc n) (p ∷ ps) = omega (arith, length-drop n ps)

no_lines : (qs : List TaskLogPayload) → length qs ≤ 0 → [] ≡ qs
no_lines [] h = refl
no_lines (q ∷ qs) h = absurd (omega (arith, h))

pages-newer :
    (k : ℕ) (after limit : ℤ) (e : Entry)
    → Ascending e.lines
    → length (where_rows (newer after) e.lines) ≤ k
    → pages k after limit e ≡ where_rows (newer after) e.lines
unfolding pages
pages-newer zero after limit e h few = no_lines (where_rows (newer after) e.lines) few
pages-newer (suc k) after limit e h few =
    let n = limit_of limit in
    let found = where_rows (newer after) e.lines in
    let last = last_sequence after (take n found) in
    let rest : where_rows (newer last) e.lines ≡ drop n found =
      (Continues-newer after n e.lines h).0 in
    let shorter : length (where_rows (newer last) e.lines) ≤ k =
      rw (rest, length-drop n found) (omega (arith, few, limit_of-positive limit)) in
    rw (lines_after-take after n e.lines, pages-newer k last limit e h shorter, rest)
      (take-drop n found)

length-newer-le :
    (after : ℤ) (ps : List TaskLogPayload) → length (where_rows (newer after) ps) ≤ length ps
length-newer-le after [] = omega arith
length-newer-le after (p ∷ ps) = ground (arith, length-newer-le after ps)

-- A client that reads an entry whose sequences rise, page after page, each from the last sequence
-- that it has, has read every line after its start once and in order when it has read as many pages
-- as the entry has lines, whatever limit it asks for; and no page has more than 1000 lines.
pub pages_read_all :
    (k : ℕ) (after limit : ℤ) (e : Entry)
    → Ascending e.lines
    → length e.lines ≤ k
    → (pages k after limit e ≡ where_rows (newer after) e.lines)
      × (length (snapshot_of e after limit).lines ≤ 1000)
pages_read_all k after limit e h few =
    let n = limit_of limit in
    (
      pages-newer k after limit e h (omega (arith, few, length-newer-le after e.lines)),
      rw (lines_after-take after n e.lines) (
          omega (arith, length-take-le n (where_rows (newer after) e.lines), limit_of-small limit)),
    )
