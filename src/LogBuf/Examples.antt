-- ===== src/LogBuf/Examples.antt =====
-- Runs of the ring buffer of internal/master/logbuf/logbuf.go.
use vault_fleet.Prelude.{◌≡◌, refl, [], ◌∷◌}
use vault_fleet.LogBuf.{new, wrapped, write, bytes}
use vault_fleet.LogBuf.Refine.{last_bytes, written, write_all, bytes-write_all}

-- A write that goes around the end.
around : bytes (write_all (new 3) ((1 ∷ 2 ∷ []) ∷ (3 ∷ 4 ∷ []) ∷ [])) ≡ 2 ∷ 3 ∷ 4 ∷ []
unfolding write_all new write wrapped bytes
around = refl

bytes-write_all_example :
    bytes (write_all (new 3) ((1 ∷ 2 ∷ []) ∷ (3 ∷ 4 ∷ []) ∷ []))
    ≡ last_bytes 3 (written ((1 ∷ 2 ∷ []) ∷ (3 ∷ 4 ∷ []) ∷ []))
bytes-write_all_example = bytes-write_all 3 ((1 ∷ 2 ∷ []) ∷ (3 ∷ 4 ∷ []) ∷ [])
