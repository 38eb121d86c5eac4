-- ===== src/TaskLogs/Limits.antt =====
-- `enforceLimits` of internal/master/tasklogs/buffer.go, and what it keeps.
use vault_fleet.Prelude.{
  ℕ, suc, ◌+◌, ◌-◌, ◌≤◌, ◌≡◌, refl, ap, sym, length-append, Bool, true, ◌||◌, inl, inr, List, [],
  ◌∷◌, ◌++◌, arith, ltb, length, Bool-cases, if◌then◌else◌, drop,
}
use vault_fleet.TaskLogs.Model.{TaskLogPayload, Entry, bytes_of}

abbrev pub over_limits : ℕ → ℕ → List TaskLogPayload → ℕ → Bool
over_limits max_lines max_bytes lines bytes = ltb max_lines (length lines) || ltb max_bytes bytes

-- The loop, on the lines, the bytes and the count of dropped lines. Each round drops a line or ends.
unfoldable pub dropping : ℕ → ℕ → List TaskLogPayload → ℕ → ℕ → List TaskLogPayload × ℕ × ℕ
dropping max_lines max_bytes [] bytes dropped =
    ([], if over_limits max_lines max_bytes [] bytes then 0 else bytes, dropped)
dropping max_lines max_bytes (p ∷ ps) bytes dropped =
    let rest = dropping max_lines max_bytes ps (bytes - length p.line) (suc dropped) in
    if over_limits max_lines max_bytes (p ∷ ps) bytes then rest else (p ∷ ps, bytes, dropped)

unfoldable pub enforce_limits : ℕ → ℕ → Entry → Entry
unfolding dropping
enforce_limits max_lines max_bytes e =
    let kept = dropping max_lines max_bytes e.lines e.bytes e.dropped_lines in
    record e { lines = kept.0; bytes = kept.1; dropped_lines = kept.2 }

-- `kept` is the longest end of `lines` within the limits, and `dropped` lines come before it.
pub record Trimmed (max_lines max_bytes : ℕ) (lines kept : List TaskLogPayload) (dropped : ℕ)
    : Type 0 where
  pub front : List TaskLogPayload
  pub same : lines ≡ front ++ kept
  pub count : length front ≡ dropped
  pub few : length kept ≤ max_lines
  pub small : bytes_of kept ≤ max_bytes
  pub longest :
      (a b : List TaskLogPayload)
      → lines ≡ a ++ b
      → length b ≤ max_lines
      → bytes_of b ≤ max_bytes
      → length b ≤ length kept

shorter_end : (a b lines : List TaskLogPayload) → lines ≡ a ++ b → length b ≤ length lines
shorter_end a b lines e = omega (arith, ap length e, length-append a b)

-- An end within the limits of lines that are over them is an end of all but the first.
longer_end :
    (max_lines max_bytes n : ℕ) (p : TaskLogPayload) (ps a b : List TaskLogPayload)
    → over_limits max_lines max_bytes (p ∷ ps) (bytes_of (p ∷ ps)) ≡ true
    → ((a b : List TaskLogPayload)
        → ps ≡ a ++ b
        → length b ≤ max_lines
        → bytes_of b ≤ max_bytes
        → length b ≤ n)
    → p ∷ ps ≡ a ++ b
    → length b ≤ max_lines
    → bytes_of b ≤ max_bytes
    → length b ≤ n
longer_end max_lines max_bytes n p ps [] b o h e few small =
    absurd (ground (arith, o, few, small, ap length e, ap bytes_of e))
longer_end max_lines max_bytes n p ps (q ∷ a) b o h e few small = h a b (ap (drop 1) e) few small

-- The loop's result, where the count of bytes is right at its start.
pub record Dropped (max_lines max_bytes : ℕ) (lines : List TaskLogPayload) (start : ℕ)
    (kept : List TaskLogPayload × ℕ × ℕ) : Type 0 where
  pub count : ℕ
  pub trimmed : Trimmed max_lines max_bytes lines kept.0 count
  pub right : kept.1 ≡ bytes_of kept.0
  pub added : kept.2 ≡ start + count

pub dropping-Dropped :
    (max_lines max_bytes : ℕ) (lines : List TaskLogPayload) (bytes start : ℕ)
    → bytes ≡ bytes_of lines
    → Dropped max_lines max_bytes lines start (dropping max_lines max_bytes lines bytes start)
unfolding dropping
dropping-Dropped max_lines max_bytes [] bytes start h = record {
  count = 0;
  trimmed = record {
    front = [];
    same = refl;
    count = refl;
    few = omega arith;
    small = omega arith;
    longest = λ a b e few small. shorter_end a b [] e;
  };
  right = ground (arith, h);
  added = omega arith;
}
dropping-Dropped max_lines max_bytes (p ∷ ps) bytes start h =
    elim (Bool-cases (over_limits max_lines max_bytes (p ∷ ps) bytes)) [
      | inl o ↦
          let r =
            dropping-Dropped max_lines max_bytes ps (bytes - length p.line) (suc start)
              (omega (arith, h)) in
          rw o (record {
            count = suc r.count;
            trimmed = record {
              front = p ∷ r.trimmed.front;
              same = ap (λ qs. p ∷ qs) r.trimmed.same;
              count = omega (arith, r.trimmed.count);
              few = r.trimmed.few;
              small = r.trimmed.small;
              longest = λ a b.
                  longer_end max_lines max_bytes
                    (length (dropping max_lines max_bytes ps (bytes - length p.line) (suc start)).0)
                    p ps a b (rw (sym h) o) r.trimmed.longest;
            };
            right = r.right;
            added = omega (arith, r.added);
          })
      | inr o ↦ rw o (record {
        count = 0;
        trimmed = record {
          front = [];
          same = refl;
          count = refl;
          few = ground (arith, o);
          small = ground (arith, o, h);
          longest = λ a b e few small. shorter_end a b (p ∷ ps) e;
        };
        right = h;
        added = omega arith;
      })
    ]
