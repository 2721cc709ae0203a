-- ===== src/RingConn/Read.antt =====
-- A read of a connection over rings, with what the domain does meanwhile.
use mathlib.Core.List.{append_assoc}
use mathlib.Core.Path.{subst}
use lixs.Base.{
  refl, ℕ, ◌+◌, ◌^◌, ◌<◌, ◌≡◌, Bool, true, false, ◌&&◌, ◌++◌, sym, inl, inr, ◌==◌, Bool-cases,
  if_true, arith,
}
use lixs.Base.Text.{Text, length, length-++}
use lixs.RingConn.{
  XsRing, Interface, Moved, RingConn, outcome, positive, read_chunk, read_chunks, want_read,
  notified, read,
}
use lixs.RingConn.Chunk.{IsRing, read_chunk-bounds}
use lixs.RingConn.Stream.{IsShared, pending, read_chunk-pending}

module _ (x : XsRing) where
  -- What a domain may do meanwhile: it puts `more` behind what is pending.
  unfoldable pub Grows : (Interface → Interface) → (Interface → Text) → Type 0
  Grows peer more =
      (i : Interface)
      → IsShared x i
      → IsShared x (peer i) × (pending x (peer i) ≡ pending x i ++ more i)

  -- `m` has taken its chunk from the front of the queue.
  pub record Fetched (bytes : ℕ) (i : Interface) (added : Text) (m : Moved) : Type 0 where
    pub front : pending x i ++ added ≡ m.chunk ++ pending x m.shared
    pub count : length m.chunk + m.bytes ≡ bytes
    pub shared : IsShared x m.shared

pub all_given :
    {n bytes : ℕ} (alive : Bool) (left : ℕ)
    → alive && left == 0 ≡ true
    → n + left ≡ bytes
    → n ≡ bytes
all_given false left done count = ground arith
all_given true left done count = ground arith

module _ (x : XsRing) (r : IsRing x) (peer : Interface → Interface) (more : Interface → Text)
    (g : Grows x peer more) where
  pub read_chunks-Fetched :
      (bytes : ℕ) (i : Interface)
      → IsShared x i
      → bytes < 2 ^ 32
      → Fetched x bytes i (more (read_chunk x bytes i).shared) (read_chunks x peer bytes i)
  unfolding read_chunks Grows
  read_chunks-Fetched bytes i s small =
      let first = read_chunk x bytes i in
      let (taken, s1) = read_chunk-pending x r bytes i s in
      let (_, count1) = read_chunk-bounds x r bytes i s.whole small in
      let (s2, grown) = g first.shared s1 in
      let shared = peer first.shared in
      let (taken2, s3) = read_chunk-pending x r first.bytes shared s2 in
      let (_, count2) = read_chunk-bounds x r first.bytes shared s2.whole (omega arith) in
      let second = read_chunk x first.bytes shared in
      let a1 = append_assoc first.chunk (pending x first.shared) (more first.shared) in
      let a2 = append_assoc first.chunk second.chunk (pending x second.shared) in
      let both = length-++ first.chunk second.chunk in
      elim (Bool-cases (positive first.bytes && x.mask shared.req_cons == 0)) [
        | inl again ↦
            rw (again, read_chunks) (record { front = cc; count = omega arith; shared = s3 })
        | inr over ↦ rw (over, read_chunks) (record { front = cc; count = count1; shared = s2 })
      ]

  pub read_outcome :
      (sent : Bool) (bytes : ℕ) (c : RingConn)
      → c.link.alive ≡ true
      → let m = read_chunks x peer bytes c.shared in
        read x peer sent bytes c ≡ outcome m (notified m.notify sent (want_read m.bytes c.link))
  unfolding read
  read_outcome sent bytes c live = if_true _ _ live

  -- Where the domain only adds to its ring meanwhile, `more` after the first chunk, a read of a live
  -- connection for a count of 32 bits, in a memory of the size of the ring: what it gives, followed by
  -- what is pending afterwards, are the bytes that were pending, followed by those that the domain has
  -- added, no others. It counts `bytes` down by as much as it gives, and says that it is done exactly when no byte is left to come and the connection is still
  -- alive.
  pub read-Fetched :
      (sent : Bool) (bytes : ℕ) (c : RingConn)
      → c.link.alive ≡ true
      → IsShared x c.shared
      → bytes < 2 ^ 32
      → let o = read x peer sent bytes c in
        (pending x c.shared ++ more (read_chunk x bytes c.shared).shared
          ≡ o.chunk ++ pending x o.conn.shared)
        × (length o.chunk + o.bytes ≡ bytes)
        × (o.done ≡ (o.conn.link.alive && o.bytes == 0))
  read-Fetched sent bytes c live s small =
      let m = read_chunks x peer bytes c.shared in
      let f = read_chunks-Fetched bytes c.shared s small in
      subst
        (λ o.
          (pending x c.shared ++ more (read_chunk x bytes c.shared).shared
            ≡ o.chunk ++ pending x o.conn.shared)
          × (length o.chunk + o.bytes ≡ bytes)
          × (o.done ≡ (o.conn.link.alive && o.bytes == 0)))
        (sym (read_outcome sent bytes c live)) (f.front, f.count, refl)
