-- ===== src/SockConn.antt =====
-- inc/lixs/sock_conn.hh and lib/lixs/sock_conn.cc: a connection over a socket that does not block.
-- What `recv` and `send` return is of the system: the parameter `Transfer`.
pub mod Once
pub mod Setup
use lixs.Base.{
  ℕ, suc, ◌+◌, ◌-◌, ◌≤◌, Bool, true, false, not, Option, none, some, List, [], ◌∷◌, ◌==◌,
  if◌then◌else◌,
}
use lixs.Base.Text.{Text, length, take}
use lixs.Conn.{Link, set_read, set_write, die}

-- A transfer of `len + 1` bytes, one that would have to wait (`EAGAIN`, `EWOULDBLOCK`), a peer that has
-- closed, and any other error.
pub data Transfer : Type 0 where
  moves : ℕ → Transfer
  waits closed fails : Transfer

-- What `read` and `write` leave: the result, how far `buff` went, and what is left of `bytes`.
pub record Outcome : Type 0 where
  pub done : Bool
  pub moved : ℕ
  pub bytes : ℕ
  pub conn : Link

abbrev want_read : Link → Link
want_read c = if not c.ev_read then set_read true c else c

abbrev want_write : Link → Link
want_write c = if not c.ev_write then set_write true c else c

abbrev stay : Bool → ℕ → Link → Outcome
stay done bytes c = record { done = done; moved = 0; bytes = bytes; conn = c }

-- `recv` where the connection is alive and `bytes` is not 0
unfoldable pub receive : Transfer → ℕ → Link → Outcome
receive (moves len) bytes c =
    let left = bytes - suc len in
    if left == 0
    then record {
      done = true;
      moved = suc len;
      bytes = left;
      conn = if c.ev_read then set_read false c else c;
    }
    else record { done = false; moved = suc len; bytes = left; conn = want_read c }
receive waits bytes c = stay false bytes (want_read c)
receive closed bytes c = stay false bytes (die c)
receive fails bytes c = stay false bytes (die c)

unfoldable pub read : Transfer → ℕ → Link → Outcome
read ret bytes c =
    if not c.alive
    then stay false bytes c
    else if bytes == 0
    then stay true bytes c
    else receive ret bytes c

-- `send` where the connection is alive and `bytes` is not 0
unfoldable pub transmit : Transfer → ℕ → Link → Outcome
transmit (moves len) bytes c =
    let left = bytes - suc len in
    if left == 0
    then record {
      done = true;
      moved = suc len;
      bytes = left;
      conn = if c.ev_write then set_write false c else c;
    }
    else record { done = false; moved = suc len; bytes = left; conn = want_write c }
transmit waits bytes c = stay false bytes (want_write c)
transmit closed bytes c = stay false bytes (die c)
transmit fails bytes c = stay false bytes (die c)

unfoldable pub write : Transfer → ℕ → Link → Outcome
write ret bytes c =
    if not c.alive
    then stay false bytes c
    else if bytes == 0
    then stay true bytes c
    else transmit ret bytes c

unfoldable pub need_rx : Link → Link
need_rx c = if not c.alive then c else if not c.ev_read then set_read true c else c

unfoldable pub need_tx : Link → Link
need_tx c = if not c.alive then c else if not c.ev_write then set_write true c else c

-- `process_rx` and `process_tx` are the client's.
module _ (process_rx process_tx : Link → Link) where
  unfoldable pub called : Bool → Bool → Bool → Link → Link
  called rd wr error c =
      let c1 = if rd then process_rx c else c in
      if not c.alive then c else if error then die c else if wr then process_tx c1 else c1

  -- `none` is a connection that is gone.
  unfoldable pub callback : Bool → Bool → Bool → Option Link → Option Link
  callback rd wr error none = none
  callback rd wr error (some c) = some (called rd wr error c)
