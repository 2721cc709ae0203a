-- ===== src/SockConn/Once.antt =====
-- Whatever is called on a connection over a socket, it is said to be dead at most once.
use lixs.Base.{
  if_kept, not-not, ℕ, suc, ◌-◌, ◌≡◌, Bool, true, false, not, List, [], ◌∷◌, ◌==◌, if◌then◌else◌,
}
use lixs.Conn.{Link, set_read, set_write}
use lixs.Conn.Once.{IsOnce, set_read-IsOnce, set_write-IsOnce, die-IsOnce}
use lixs.SockConn.{
  Transfer, moves, waits, closed, fails, Outcome, receive, read, transmit, write, need_rx, need_tx,
  called,
}

-- Events that a condition switches.
switched_read : (b ev : Bool) (c : Link) → IsOnce c → IsOnce (if b then set_read ev c else c)
switched_read b ev c once = if_kept IsOnce b _ c (λ _. set_read-IsOnce ev c once) (λ _. once)

switched_write : (b ev : Bool) (c : Link) → IsOnce c → IsOnce (if b then set_write ev c else c)
switched_write b ev c once = if_kept IsOnce b _ c (λ _. set_write-IsOnce ev c once) (λ _. once)

module _ (c : Link) (once : IsOnce c) where
  receive-IsOnce : (ret : Transfer) (bytes : ℕ) → c.alive ≡ true → IsOnce (receive ret bytes c).conn
  unfolding receive
  receive-IsOnce (moves len) bytes live =
      if_kept (λ (o : Outcome). IsOnce o.conn) (bytes - suc len == 0) _ _
        (λ _. switched_read c.ev_read false c once) (λ _. switched_read (not c.ev_read) true c once)
  receive-IsOnce waits bytes live = switched_read (not c.ev_read) true c once
  receive-IsOnce closed bytes live = die-IsOnce c live once
  receive-IsOnce fails bytes live = die-IsOnce c live once

  transmit-IsOnce :
      (ret : Transfer) (bytes : ℕ) → c.alive ≡ true → IsOnce (transmit ret bytes c).conn
  unfolding transmit
  transmit-IsOnce (moves len) bytes live =
      if_kept (λ (o : Outcome). IsOnce o.conn) (bytes - suc len == 0) _ _
        (λ _. switched_write c.ev_write false c once)
        (λ _. switched_write (not c.ev_write) true c once)
  transmit-IsOnce waits bytes live = switched_write (not c.ev_write) true c once
  transmit-IsOnce closed bytes live = die-IsOnce c live once
  transmit-IsOnce fails bytes live = die-IsOnce c live once

  read-IsOnce : (ret : Transfer) (bytes : ℕ) → IsOnce (read ret bytes c).conn
  unfolding read
  read-IsOnce ret bytes =
      if_kept (λ (o : Outcome). IsOnce o.conn) (not c.alive) _ _ (λ _. once)
        (λ live.
          if_kept (λ (o : Outcome). IsOnce o.conn) (bytes == 0) _ _ (λ _. once)
            (λ _. receive-IsOnce ret bytes (not-not live)))

  write-IsOnce : (ret : Transfer) (bytes : ℕ) → IsOnce (write ret bytes c).conn
  unfolding write
  write-IsOnce ret bytes =
      if_kept (λ (o : Outcome). IsOnce o.conn) (not c.alive) _ _ (λ _. once)
        (λ live.
          if_kept (λ (o : Outcome). IsOnce o.conn) (bytes == 0) _ _ (λ _. once)
            (λ _. transmit-IsOnce ret bytes (not-not live)))

  need_rx-IsOnce : IsOnce (need_rx c)
  unfolding need_rx
  need_rx-IsOnce =
      if_kept IsOnce (not c.alive) c _ (λ _. once) (λ _. switched_read (not c.ev_read) true c once)

  need_tx-IsOnce : IsOnce (need_tx c)
  unfolding need_tx
  need_tx-IsOnce =
      if_kept IsOnce (not c.alive) c _ (λ _. once)
        (λ _. switched_write (not c.ev_write) true c once)

-- What the processing of a callback may call.
pub data Call : Type 0 where
  reads writes : Transfer → ℕ → Call
  needs_rx needs_tx : Call

pub run : List Call → Link → Link
run [] c = c
run (reads ret bytes ∷ calls) c = run calls (read ret bytes c).conn
run (writes ret bytes ∷ calls) c = run calls (write ret bytes c).conn
run (needs_rx ∷ calls) c = run calls (need_rx c)
run (needs_tx ∷ calls) c = run calls (need_tx c)

run-IsOnce : (calls : List Call) (c : Link) → IsOnce c → IsOnce (run calls c)
unfolding run
run-IsOnce [] c once = once
run-IsOnce (reads ret bytes ∷ calls) c once = run-IsOnce calls _ (read-IsOnce c once ret bytes)
run-IsOnce (writes ret bytes ∷ calls) c once = run-IsOnce calls _ (write-IsOnce c once ret bytes)
run-IsOnce (needs_rx ∷ calls) c once = run-IsOnce calls _ (need_rx-IsOnce c once)
run-IsOnce (needs_tx ∷ calls) c once = run-IsOnce calls _ (need_tx-IsOnce c once)

-- An event of a socket's connection that is alive and has not been said to be dead, or is not and has
-- been so once, keeps it so, whatever reads and writes its processing makes and whatever `recv` and
-- `send` return: `conn_dead` and `io.rem` are called exactly once, when `alive` becomes false.
pub called-IsOnce :
    (rx tx : List Call) (rd wr error : Bool) (c : Link)
    → IsOnce c
    → IsOnce (called (run rx) (run tx) rd wr error c)
unfolding called
called-IsOnce rx tx rd wr error c once =
    let c1 = if rd then run rx c else c in
    let once1 = if_kept IsOnce rd (run rx c) c (λ _. run-IsOnce rx c once) (λ _. once) in
    if_kept IsOnce (not c.alive) c _ (λ _. once)
      (λ live.
        if_kept IsOnce error _ _ (λ _. die-IsOnce c (not-not live) once)
          (λ _. if_kept IsOnce wr (run tx c1) c1 (λ _. run-IsOnce tx c1 once1) (λ _. once1)))
