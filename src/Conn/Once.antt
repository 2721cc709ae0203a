-- ===== src/Conn/Once.antt =====
-- A connection is said to be dead once, when it stops being alive.
use lixs.Base.{ℕ, ◌+◌, ◌≡◌, ◌∙◌, Bool, true, List, [], ◌∷◌, refl, ap, if◌then◌else◌}
use lixs.Conn.{Action, io_set, io_rem, conn_dead, Link, set_read, set_write, die}

-- How often a connection has been said to be dead, and taken out of the multiplexer.
unfoldable pub deaths : List Action → ℕ
deaths [] = 0
deaths (conn_dead ∷ calls) = deaths calls + 1
deaths (io_set r w ∷ calls) = deaths calls
deaths (io_rem ∷ calls) = deaths calls

unfoldable pub removals : List Action → ℕ
removals [] = 0
removals (io_rem ∷ calls) = removals calls + 1
removals (io_set r w ∷ calls) = removals calls
removals (conn_dead ∷ calls) = removals calls

-- Alive, it has been neither; else it has been each of them once.
pub record IsOnce (c : Link) : Type 0 where
  pub dead : deaths c.actions ≡ (if c.alive then 0 else 1)
  pub removed : removals c.actions ≡ (if c.alive then 0 else 1)

pub set_read-IsOnce : (ev : Bool) (c : Link) → IsOnce c → IsOnce (set_read ev c)
unfolding deaths removals
set_read-IsOnce ev c once = record { dead = once.dead; removed = once.removed }

pub set_write-IsOnce : (ev : Bool) (c : Link) → IsOnce c → IsOnce (set_write ev c)
unfolding deaths removals
set_write-IsOnce ev c once = record { dead = once.dead; removed = once.removed }

pub die-IsOnce : (c : Link) → c.alive ≡ true → IsOnce c → IsOnce (die c)
unfolding deaths removals
die-IsOnce c live once =
    let quiet : (if c.alive then 0 else 1) ≡ 0 = rw live refl in
    record {
      dead = ap (λ n. n + 1) (once.dead ∙ quiet);
      removed = ap (λ n. n + 1) (once.removed ∙ quiet);
    }
