-- ===== src/TaskLogs/Mirror.antt =====
-- The rows of a task as the mirror of its entry in memory (internal/master/tasklogs/buffer.go).
use mathlib.Core.Path.{subst}
use vault_fleet.Prelude.{
  ℕ, ◌+◌, ◌≤◌, ◌≡◌, refl, sym, ap, ◌∙◌, true, false, some, List, [], ◌∷◌, ◌++◌, arith, length, All,
  where_rows, Text, ℤ, pos, ltb_int, ltb_int_asym, ltb_int_irrefl, ltb_int-false_trans,
  ltb_int-false-true,
}
use vault_fleet.TaskLogs.Model.{TaskLogPayload, TaskLog, Entry, empty_entry, Env, bytes_of}
use vault_fleet.TaskLogs.Limits.{enforce_limits, dropping-Dropped}
use vault_fleet.TaskLogs.Persist.{new_row, lines_of, last_row, entry_ending, entry_of}
use vault_fleet.TaskLogs.Buffer.{appended, oldest_sequence}
use vault_fleet.TaskLogs.Counted.{Counts, bytes_of-append}
use vault_fleet.TaskLogs.Pages.{newer, Ascending}
use vault_fleet.TaskLogs.Restart.{
  Until, since, lines_of-append, last_row-append, since-kept, Ascending-end, All-end,
}

pub record Mirrors (rs : List TaskLog) (e : Entry) : Type 0 where
  pub lines : lines_of rs ≡ e.lines
  pub counts : Counts e
  pub rising : Ascending e.lines
  pub newest : Until e.latest_sequence e.lines
  pub positive : All (λ q. newer (pos 0) q ≡ true) e.lines
  pub least : ltb_int e.latest_sequence (pos 0) ≡ false

pub Mirrors-empty : Mirrors [] empty_entry
Mirrors-empty = record {
  lines = refl;
  counts = refl;
  rising = tt;
  newest = tt;
  positive = tt;
  least = refl;
}

kept_lines :
    (rs : List TaskLog) (front kept : List TaskLogPayload)
    → Ascending (lines_of rs)
    → lines_of rs ≡ front ++ kept
    → 1 ≤ length kept
    → (lines_of (where_rows (since (oldest_sequence kept)) rs) ≡ kept)
      × (last_row (where_rows (since (oldest_sequence kept)) rs) ≡ last_row rs)
kept_lines rs front [] h e some_line = absurd (omega (arith, some_line))
kept_lines rs front (q ∷ kept) h e some_line = since-kept rs front q kept h e

oldest_positive :
    (ps : List TaskLogPayload)
    → 1 ≤ length ps
    → All (λ q. newer (pos 0) q ≡ true) ps
    → ltb_int (pos 0) (oldest_sequence ps) ≡ true
oldest_positive [] h k = absurd (omega (arith, h))
oldest_positive (p ∷ ps) h k = k.0

Until-later : (s t : ℤ) (ps : List TaskLogPayload) → ltb_int s t ≡ true → Until s ps → Until t ps
Until-later s t [] h k = tt
Until-later s t (p ∷ ps) h k =
    (ltb_int-false_trans p.sequence s t k.0 (ltb_int_asym s t h), Until-later s t ps h k.1)

All-snoc :
    (P : TaskLogPayload → Type 0) (p : TaskLogPayload) (ps : List TaskLogPayload)
    → All P ps
    → P p
    → All P (ps ++ p ∷ [])
All-snoc P p [] h k = (k, tt)
All-snoc P p (q ∷ ps) h k = (h.0, All-snoc P p ps h.1 k)

-- A line after the last one keeps lines rising.
Ascending-append :
    (s : ℤ) (p : TaskLogPayload) (ps : List TaskLogPayload)
    → Ascending ps
    → Until s ps
    → ltb_int s p.sequence ≡ true
    → Ascending (ps ++ p ∷ [])
Ascending-append s p [] h k l = (tt, tt)
Ascending-append s p (q ∷ ps) h k l = (
  All-snoc (λ x. newer q.sequence x ≡ true) p ps h.0
      (ltb_int-false-true q.sequence s p.sequence k.0 l),
  Ascending-append s p ps h.1 k.1 l,
)

module _ (env : Env) (p : TaskLogPayload) (t : ℕ) (id : Text) (e : Entry) where
  -- The entry after the line, and its task's rows before the older ones are deleted and after.
  abbrev pub next_entry : Entry
  next_entry = appended env p t e

  abbrev pub all_rows : List TaskLog → List TaskLog
  all_rows rs = rs ++ new_row p next_entry.latest_sequence next_entry.dropped_lines t id ∷ []

  abbrev pub next_rows : List TaskLog → List TaskLog
  next_rows rs = where_rows (since (oldest_sequence next_entry.lines)) (all_rows rs)

  pub next_latest :
      ltb_int e.latest_sequence p.sequence ≡ true → next_entry.latest_sequence ≡ p.sequence
  unfolding appended enforce_limits
  next_latest h = rw h refl

  pub next-Mirrors :
      (rs : List TaskLog)
      → Mirrors rs e
      → ltb_int e.latest_sequence p.sequence ≡ true
      → 1 ≤ env.max_lines
      → length p.line ≤ env.max_bytes
      → Mirrors (next_rows rs) next_entry
        × (entry_of (next_rows rs) ≡ some next_entry)
        × (ltb_int (pos 0) (oldest_sequence next_entry.lines) ≡ true)
  unfolding appended enforce_limits
  next-Mirrors rs w later lines_fit line_fits =
      let d =
        dropping-Dropped env.max_lines env.max_bytes (e.lines ++ p ∷ []) (e.bytes + length p.line)
          e.dropped_lines (omega (arith, w.counts, bytes_of-append e.lines (p ∷ []))) in
      let some_line : 1 ≤ length next_entry.lines =
        d.trimmed.longest e.lines (p ∷ []) refl (omega (arith, lines_fit))
          (omega (arith, line_fits)) in
      let row = new_row p next_entry.latest_sequence next_entry.dropped_lines t id in
      let whole : lines_of (all_rows rs) ≡ e.lines ++ p ∷ [] =
        lines_of-append rs (row ∷ []) ∙ ap (λ qs. qs ++ p ∷ []) w.lines in
      let rising : Ascending (e.lines ++ p ∷ []) =
        Ascending-append e.latest_sequence p e.lines w.rising w.newest later in
      let kept =
        kept_lines (all_rows rs) d.trimmed.front next_entry.lines
          (subst Ascending (sym whole) rising) (whole ∙ d.trimmed.same) some_line in
      let positive : All (λ q. newer (pos 0) q ≡ true) (e.lines ++ p ∷ []) =
        All-snoc (λ q. newer (pos 0) q ≡ true) p e.lines w.positive
          (ltb_int-false-true (pos 0) e.latest_sequence p.sequence w.least later) in
      let until : Until p.sequence (e.lines ++ p ∷ []) =
        All-snoc (λ q. ltb_int p.sequence q.sequence ≡ false) p e.lines
          (Until-later e.latest_sequence p.sequence e.lines later w.newest)
          (ltb_int_irrefl p.sequence) in
      let positive_kept =
        All-end (λ q. newer (pos 0) q ≡ true) d.trimmed.front next_entry.lines
          (subst (All λ q. newer (pos 0) q ≡ true) d.trimmed.same positive) in
      (
        record {
          lines = kept.0;
          counts = d.right;
          rising =
              Ascending-end d.trimmed.front next_entry.lines
                (subst Ascending d.trimmed.same rising);
          newest =
              subst (λ s. Until s next_entry.lines) (sym (next_latest later))
                (All-end (λ q. ltb_int p.sequence q.sequence ≡ false) d.trimmed.front
                  next_entry.lines (subst (Until p.sequence) d.trimmed.same until));
          positive = positive_kept;
          least =
              subst (λ s. ltb_int s (pos 0) ≡ false) (sym (next_latest later))
                (ltb_int_asym (pos 0) p.sequence
                  (ltb_int-false-true (pos 0) e.latest_sequence p.sequence w.least later));
        },
        ap (entry_ending (next_rows rs)) (kept.1 ∙ last_row-append rs row)
            ∙ ap some (
                ap (λ ls. record next_entry { lines = ls; bytes = bytes_of ls }) kept.0
                ∙ ap (λ n. record next_entry { bytes = n }) (sym d.right)),
        oldest_positive next_entry.lines some_line positive_kept,
      )
