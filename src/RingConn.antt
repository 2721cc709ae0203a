-- ===== src/RingConn.antt =====
-- inc/lixs/ring_conn.hh and lib/lixs/ring_conn.cc: a connection over a pair of rings in memory that a
-- domain shares. The ring's size and `MASK_XENSTORE_IDX` are of Xen's headers: the parameter `XsRing`.
-- An index is of 32 bits, and so is `bytes`, which stands for its residue. The domain may change the
-- shared memory at any time: `peer` is what it does between two looks at it.
pub mod Chunk
pub mod Stream
pub mod Read
pub mod Done
pub mod Write
pub mod Queued
pub mod Once
pub mod Source
pub mod Sink
pub mod Setup
use lixs.Base.{
  ℕ, ◌+◌, ◌-◌, ◌%◌, ◌^◌, Bool, true, false, not, ◌&&◌, ◌||◌, Option, none, some, List, [], ◌∷◌,
  ◌++◌, ltb, ◌==◌, if◌then◌else◌,
}
use lixs.Base.Text.{Text, length, drop, take, splice, slice}
use lixs.Conn.{Link, set_read, set_write, die}

pub record XsRing : Type 0 where
  pub size : ℕ
  pub mask : ℕ → ℕ

-- `xenstore_domain_interface`
pub record Interface : Type 0 where
  pub req : Text
  pub rsp : Text
  pub req_cons : ℕ
  pub req_prod : ℕ
  pub rsp_cons : ℕ
  pub rsp_prod : ℕ

-- `ring_conn_base`
pub record RingConn : Type 0 where
  pub link : Link
  pub shared : Interface

-- `a + b` and `a - b` at 32 bits
abbrev pub add32 : ℕ → ℕ → ℕ
add32 a b = (a + b) % 2 ^ 32

abbrev pub sub32 : ℕ → ℕ → ℕ
sub32 a b = (a + (2 ^ 32 - b)) % 2 ^ 32

-- `bytes > 0` of an `int`
unfoldable pub positive : ℕ → Bool
positive bytes = ltb 0 bytes && ltb bytes (2 ^ 31)

abbrev pub min : ℕ → ℕ → ℕ
min a b = if ltb b a then b else a

-- What a call has moved, what is left of `bytes`, and whether the domain is to be notified.
pub record Moved : Type 0 where
  pub chunk : Text
  pub bytes : ℕ
  pub notify : Bool
  pub shared : Interface

module _ (x : XsRing) where
  unfoldable pub read_len : ℕ → Interface → ℕ
  read_len bytes i = min (min (x.size - x.mask i.req_cons) (sub32 i.req_prod i.req_cons)) bytes

  unfoldable pub read_chunk : ℕ → Interface → Moved
  read_chunk bytes i =
      let len = read_len bytes i in
      record {
        chunk = slice (x.mask i.req_cons) len i.req;
        bytes = sub32 bytes len;
        notify = ltb 0 len;
        shared = record i { req_cons = add32 i.req_cons len };
      }

  unfoldable pub write_len : ℕ → Interface → ℕ
  write_len bytes i =
      min (min (x.size - x.mask i.rsp_prod) (sub32 x.size (sub32 i.rsp_prod i.rsp_cons))) bytes

  -- `buff` is the memory from the pointer on.
  unfoldable pub write_chunk : Text → ℕ → Interface → Moved
  write_chunk buff bytes i =
      let len = write_len bytes i in
      record {
        chunk = take len buff;
        bytes = sub32 bytes len;
        notify = ltb 0 len;
        shared = record i {
          rsp = splice (x.mask i.rsp_prod) (take len buff) i.rsp;
          rsp_prod = add32 i.rsp_prod len;
        };
      }

  -- The first chunk, and a second one where it ended at the end of the ring.
  unfoldable pub read_chunks : (Interface → Interface) → ℕ → Interface → Moved
  read_chunks peer bytes i =
      let first = read_chunk bytes i in
      let shared = peer first.shared in
      let second = read_chunk first.bytes shared in
      if positive first.bytes && x.mask shared.req_cons == 0
      then record second {
        chunk = first.chunk ++ second.chunk;
        notify = first.notify || second.notify;
      }
      else record first { shared = shared }

  unfoldable pub write_chunks : (Interface → Interface) → Text → ℕ → Interface → Moved
  write_chunks peer buff bytes i =
      let first = write_chunk buff bytes i in
      let shared = peer first.shared in
      let second = write_chunk (drop (length first.chunk) buff) first.bytes shared in
      if positive first.bytes && x.mask shared.rsp_prod == 0
      then record second {
        chunk = first.chunk ++ second.chunk;
        notify = first.notify || second.notify;
      }
      else record first { shared = shared }

-- The events that are watched for what is left of `bytes`.
unfoldable pub want_read : ℕ → Link → Link
want_read bytes c =
    if positive bytes && not c.ev_read
    then set_read true c
    else if bytes == 0 && c.ev_read
    then set_read false c
    else c

unfoldable pub want_write : ℕ → Link → Link
want_write bytes c =
    if positive bytes && not c.ev_write
    then set_write true c
    else if bytes == 0 && c.ev_write
    then set_write false c
    else c

-- `sent` says whether `xc_evtchn_notify` succeeds.
abbrev pub notified : Bool → Bool → Link → Link
notified notify sent c = if notify && not sent then die c else c

pub record Outcome : Type 0 where
  pub done : Bool
  pub chunk : Text
  pub bytes : ℕ
  pub conn : RingConn

abbrev pub outcome : Moved → Link → Outcome
outcome m link = record {
  done = link.alive && m.bytes == 0;
  chunk = m.chunk;
  bytes = m.bytes;
  conn = record { link = link; shared = m.shared };
}

abbrev pub refused : ℕ → RingConn → Outcome
refused bytes c = record { done = false; chunk = []; bytes = bytes; conn = c }

unfoldable pub read : XsRing → (Interface → Interface) → Bool → ℕ → RingConn → Outcome
read x peer sent bytes c =
    let m = read_chunks x peer bytes c.shared in
    if c.link.alive
    then outcome m (notified m.notify sent (want_read m.bytes c.link))
    else refused bytes c

unfoldable pub write : XsRing → (Interface → Interface) → Bool → Text → ℕ → RingConn → Outcome
write x peer sent buff bytes c =
    let m = write_chunks x peer buff bytes c.shared in
    if c.link.alive
    then outcome m (notified m.notify sent (want_write m.bytes c.link))
    else refused bytes c

unfoldable pub need_rx : Link → Link
need_rx c = if c.alive then (if not c.ev_read then set_read true c else c) else c

unfoldable pub need_tx : Link → Link
need_tx c = if c.alive then (if not c.ev_write then set_write true c else c) else c

-- `process_rx` and `process_tx` are the client's; `pending` and `unmasked` say whether
-- `xc_evtchn_pending` and `xc_evtchn_unmask` succeed.
module _ (process_rx process_tx : RingConn → RingConn) (pending unmasked : Bool) where
  abbrev pub serve : Bool → Bool → RingConn → RingConn
  serve rd wr c = let c1 = if rd then process_rx c else c in if wr then process_tx c1 else c1

  abbrev pub dead : RingConn → RingConn
  dead c = record c { link = die c.link }

  unfoldable pub called : Bool → Bool → Bool → RingConn → RingConn
  called rd wr error c =
      let served = serve rd wr c in
      if not c.link.alive
      then c
      else if error
      then dead c
      else if not served.link.alive
      then served
      else if pending && unmasked
      then served
      else dead served

  -- `none` is a connection that is gone.
  unfoldable pub callback : Bool → Bool → Bool → Option RingConn → Option RingConn
  callback rd wr error none = none
  callback rd wr error (some c) = some (called rd wr error c)
