-- ===== src/TaskLogs/Restart.antt =====
-- A buffer that starts again on its table of task logs (internal/master/tasklogs/buffer.go).
use mathlib.Core.Path.{subst}
use vault_fleet.Prelude.{
  ◌≡◌, refl, sym, ap, ◌∙◌, Bool, true, false, not, inl, inr, some, List, [], ◌∷◌, ◌++◌, arith,
  length, drop, ltb_int_irrefl, All, where_rows, count_where, sort_by, insert_sorted, Bool-cases,
  if◌then◌else◌, text_eq_refl, ℤ, ltb_int, ltb_int_asym, ltb_int-false-true,
}
use vault_fleet.TaskLogs.Model.{TaskLogPayload, TaskLog, row_of}
use vault_fleet.TaskLogs.Persist.{
  same_key, upsert, older_than, line_of, lines_of, last_row, by_sequence,
}
use vault_fleet.TaskLogs.Pages.{newer, Ascending}

-- Lines up to a sequence.
abbrev pub Until : ℤ → List TaskLogPayload → Type 0
Until s ps = All (λ q. ltb_int s q.sequence ≡ false) ps

pub lines_of-append : (rs qs : List TaskLog) → lines_of (rs ++ qs) ≡ lines_of rs ++ lines_of qs
lines_of-append [] qs = refl
lines_of-append (r ∷ rs) qs = ap (λ ps. line_of r ∷ ps) (lines_of-append rs qs)

pub last_row-append : (rs : List TaskLog) (r : TaskLog) → last_row (rs ++ r ∷ []) ≡ some r
last_row-append [] r = refl
last_row-append (q ∷ []) r = refl
last_row-append (q ∷ s ∷ rs) r = last_row-append (s ∷ rs) r

where_rows-append :
    (p : TaskLog → Bool) (rs qs : List TaskLog)
    → where_rows p (rs ++ qs) ≡ where_rows p rs ++ where_rows p qs
where_rows-append p [] qs = refl
where_rows-append p (r ∷ rs) qs = elim (Bool-cases (p r)) [
  | inl e ↦ rw e (ap (λ xs. r ∷ xs) (where_rows-append p rs qs))
  | inr e ↦ rw e (where_rows-append p rs qs)
]

-- A row with a new sequence is inserted.
none_same :
    (r : TaskLog) (s : ℤ) (rows : List TaskLog)
    → ltb_int s r.sequence ≡ true
    → Until s (lines_of (where_rows (row_of r.agent_id r.message_id) rows))
    → count_where (same_key r) rows ≡ 0
none_same r s [] h k = refl
none_same r s (x ∷ rows) h k = elim (Bool-cases (row_of r.agent_id r.message_id x)) [
  | inl e ↦
      let k' : Until s (lines_of (x ∷ where_rows (row_of r.agent_id r.message_id) rows)) =
        subst
          (λ b. Until s (
            lines_of (
              if b
              then x ∷ where_rows (row_of r.agent_id r.message_id) rows
              else where_rows (row_of r.agent_id r.message_id) rows)))
          e k in
      rw (e, ltb_int-false-true x.sequence s r.sequence k'.0 h) (none_same r s rows h k'.1)
  | inr e ↦
      let k' : Until s (lines_of (where_rows (row_of r.agent_id r.message_id) rows)) =
        subst
          (λ b. Until s (
            lines_of (
              if b
              then x ∷ where_rows (row_of r.agent_id r.message_id) rows
              else where_rows (row_of r.agent_id r.message_id) rows)))
          e k in
      rw e (none_same r s rows h k')
]

pub upsert-new :
    (r : TaskLog) (s : ℤ) (rows : List TaskLog)
    → ltb_int s r.sequence ≡ true
    → Until s (lines_of (where_rows (row_of r.agent_id r.message_id) rows))
    → where_rows (row_of r.agent_id r.message_id) (upsert r rows)
      ≡ where_rows (row_of r.agent_id r.message_id) rows ++ r ∷ []
unfolding upsert
upsert-new r s rows h k =
    rw
      (
        none_same r s rows h k,
        where_rows-append (row_of r.agent_id r.message_id) rows (r ∷ []),
        text_eq_refl r.agent_id,
        text_eq_refl r.message_id,
      )
      refl

abbrev pub since : ℤ → TaskLog → Bool
since s r = not (ltb_int r.sequence s)

-- Deleting the older rows of one task, seen by the rows of this task.
pub where_rows-since :
    (p : TaskLogPayload) (s : ℤ) (rows : List TaskLog)
    → where_rows (row_of p.agent_id p.message_id) (where_rows (λ r. not (older_than p s r)) rows)
      ≡ where_rows (since s) (where_rows (row_of p.agent_id p.message_id) rows)
where_rows-since p s [] = refl
where_rows-since p s (x ∷ rows) = elim (Bool-cases (row_of p.agent_id p.message_id x)) [
  | inl e ↦ elim (Bool-cases (ltb_int x.sequence s)) [
    | inl f ↦ rw (e, f) (where_rows-since p s rows)
    | inr f ↦ rw (e, f, e) (ap (λ xs. x ∷ xs) (where_rows-since p s rows))
  ]
  | inr e ↦ rw (e, e) (where_rows-since p s rows)
]

pub Ascending-end : (ps qs : List TaskLogPayload) → Ascending (ps ++ qs) → Ascending qs
Ascending-end [] qs h = h
Ascending-end (p ∷ ps) qs h = Ascending-end ps qs h.1

pub All-end :
    (P : TaskLogPayload → Type 0) (ps qs : List TaskLogPayload) → All P (ps ++ qs) → All P qs
All-end P [] qs h = h
All-end P (p ∷ ps) qs h = All-end P ps qs h.1

-- Rows that rise are in the order that a query asks for.
pub sort_by-rising : (rs : List TaskLog) → Ascending (lines_of rs) → sort_by by_sequence rs ≡ rs
sort_by-rising [] h = refl
sort_by-rising (r ∷ rs) h =
    ap (insert_sorted by_sequence r) (sort_by-rising rs h.1) ∙ first_in rs h.0
  where
    first_in :
        (qs : List TaskLog)
        → All (λ q. newer r.sequence q ≡ true) (lines_of qs)
        → insert_sorted by_sequence r qs ≡ r ∷ qs
    first_in [] k = refl
    first_in (q ∷ qs) k = rw (ltb_int_asym r.sequence q.sequence k.0) refl

since-all :
    (s : ℤ) (rs : List TaskLog)
    → All (λ q. ltb_int q.sequence s ≡ false) (lines_of rs)
    → where_rows (since s) rs ≡ rs
since-all s [] h = refl
since-all s (r ∷ rs) h = rw (h.0) (ap (λ qs. r ∷ qs) (since-all s rs h.1))

older-rising :
    (q : TaskLogPayload) (ps : List TaskLogPayload)
    → All (λ x. newer q.sequence x ≡ true) ps
    → All (λ x. ltb_int x.sequence q.sequence ≡ false) ps
older-rising q [] h = tt
older-rising q (p ∷ ps) h = (ltb_int_asym q.sequence p.sequence h.0, older-rising q ps h.1)

-- The line that begins the end of rising lines is after those in front.
front_older :
    (p : TaskLogPayload) (front : List TaskLogPayload) (q : TaskLogPayload)
    (kept : List TaskLogPayload)
    → All (λ x. newer p.sequence x ≡ true) (front ++ q ∷ kept)
    → newer p.sequence q ≡ true
front_older p [] q kept h = h.0
front_older p (x ∷ front) q kept h = front_older p front q kept h.1

last_row-cons :
    (r : TaskLog) (rs : List TaskLog) (q : TaskLogPayload) (front kept : List TaskLogPayload)
    → lines_of rs ≡ front ++ q ∷ kept
    → last_row (r ∷ rs) ≡ last_row rs
last_row-cons r [] q [] kept h = absurd (ground (arith, ap length h))
last_row-cons r [] q (x ∷ front) kept h = absurd (ground (arith, ap length h))
last_row-cons r (s ∷ rs) q front kept h = refl

-- The rows from the first kept line on stand for the kept lines, and end as the rows did.
pub since-kept :
    (rs : List TaskLog) (front : List TaskLogPayload) (q : TaskLogPayload)
    (kept : List TaskLogPayload)
    → Ascending (lines_of rs)
    → lines_of rs ≡ front ++ q ∷ kept
    → (lines_of (where_rows (since q.sequence) rs) ≡ q ∷ kept)
      × (last_row (where_rows (since q.sequence) rs) ≡ last_row rs)
since-kept rs [] q kept h e =
    let up : Ascending (q ∷ kept) = subst Ascending e h in
    let all : All (λ x. ltb_int x.sequence q.sequence ≡ false) (q ∷ kept) =
      (ltb_int_irrefl q.sequence, older-rising q kept up.0) in
    rw
      (since-all q.sequence rs (subst (All λ x. ltb_int x.sequence q.sequence ≡ false) (sym e) all))
      (e, refl)
since-kept [] (f ∷ front) q kept h e = absurd (ground (arith, ap length e))
since-kept (r ∷ rs) (f ∷ front) q kept h e =
    let tail : lines_of rs ≡ front ++ q ∷ kept = ap (drop 1) e in
    let rest = since-kept rs front q kept h.1 tail in
    let before : ltb_int r.sequence q.sequence ≡ true =
      front_older (line_of r) front q kept (subst (All λ x. newer r.sequence x ≡ true) tail h.0) in
    rw (before) (rest.0, rest.1 ∙ sym (last_row-cons r rs q front kept tail))
