-- ===== src/RingConn/Queued.antt =====
-- A write of a connection over rings, with what the domain does meanwhile.
use mathlib.Core.Path.{subst}
use mathlib.Core.List.{append_assoc}
use lixs.Base.{
  ℕ, ◌+◌, ◌^◌, ◌≤◌, ◌<◌, ◌≡◌, Bool, true, ◌&&◌, ◌++◌, refl, sym, ap, inl, inr, ◌==◌, Bool-cases,
  if_true, arith,
}
use lixs.Base.Memory.{take_split, take_past}
use lixs.Base.Text.{Text, length, length-++, drop, take, length-take}
use lixs.RingConn.{
  XsRing, Interface, Moved, RingConn, outcome, positive, write_len, write_chunk, write_chunks,
  want_write, notified, write,
}
use lixs.RingConn.Chunk.{IsRing, write_chunk-bounds, write_len-bounds}
use lixs.RingConn.Write.{IsSending, unsent, write_chunk-unsent}

module _ (x : XsRing) where
  -- What a domain may do meanwhile: it takes `taken` from the front of what waits for it.
  unfoldable pub Drains : (Interface → Interface) → (Interface → Text) → Type 0
  Drains peer taken =
      (i : Interface)
      → IsSending x i
      → IsSending x (peer i) × (unsent x i ≡ taken i ++ unsent x (peer i))

  -- `m` has put its chunk, which is the front of `buff`, behind what waits.
  pub record Queued (buff : Text) (bytes : ℕ) (i : Interface) (gone : Text) (m : Moved)
      : Type 0 where
    pub back : unsent x i ++ m.chunk ≡ gone ++ unsent x m.shared
    pub front : m.chunk ≡ take (length m.chunk) buff
    pub count : length m.chunk + m.bytes ≡ bytes
    pub sending : IsSending x m.shared

module _ (x : XsRing) (r : IsRing x) where
  write_chunk-front :
      (buff : Text) (bytes : ℕ) (i : Interface)
      → bytes ≤ length buff
      → (write_chunk x buff bytes i).chunk ≡ take (length (write_chunk x buff bytes i).chunk) buff
  unfolding write_chunk
  write_chunk-front buff bytes i given =
      let (_, within) = write_len-bounds x r bytes i in
      ap (λ n. take n buff) (sym (length-take (write_len x bytes i) buff (omega arith)))

module _ (x : XsRing) (r : IsRing x) (peer : Interface → Interface) (taken : Interface → Text)
    (d : Drains x peer taken) where
  pub write_chunks-Queued :
      (buff : Text) (bytes : ℕ) (i : Interface)
      → IsSending x i
      → bytes < 2 ^ 32
      → bytes ≤ length buff
      → Queued x buff bytes i
          (taken (write_chunk x buff bytes i).shared)
          (write_chunks x peer buff bytes i)
  unfolding write_chunks Drains
  write_chunks-Queued buff bytes i s small given =
      let first = write_chunk x buff bytes i in
      let (put, s1) = write_chunk-unsent x r buff bytes i s given in
      let (_, count1, _) = write_chunk-bounds x r buff bytes i s.whole small given in
      let (s2, drained) = d first.shared s1 in
      let shared = peer first.shared in
      let rest = drop (length first.chunk) buff in
      let left = take_past (length first.chunk) buff (omega arith) in
      let second = write_chunk x rest first.bytes shared in
      let (put2, s3) = write_chunk-unsent x r rest first.bytes shared s2 (omega arith) in
      let (_, count2, _) =
        write_chunk-bounds x r rest first.bytes shared s2.whole (omega arith) (omega arith) in
      let both = length-++ first.chunk second.chunk in
      let a1 = append_assoc (unsent x i) first.chunk second.chunk in
      let a2 = append_assoc (taken first.shared) (unsent x shared) second.chunk in
      let front1 = write_chunk-front x r buff bytes i given in
      let front2 = write_chunk-front x r rest first.bytes shared (omega arith) in
      let split = take_split (length first.chunk) (length second.chunk) buff in
      elim (Bool-cases (positive first.bytes && x.mask shared.rsp_prod == 0)) [
        | inl again ↦
            rw (again, write_chunks)
              (record { back = cc; front = cc; count = omega arith; sending = s3 })
        | inr over ↦
            rw (over, write_chunks)
              (record { back = cc; front = front1; count = count1; sending = s2 })
      ]

  write_outcome :
      (sent : Bool) (buff : Text) (bytes : ℕ) (c : RingConn)
      → c.link.alive ≡ true
      → let m = write_chunks x peer buff bytes c.shared in
        write x peer sent buff bytes c
        ≡ outcome m (notified m.notify sent (want_write m.bytes c.link))
  unfolding write
  write_outcome sent buff bytes c live = if_true _ _ live

  -- Where the domain only takes responses from the front meanwhile, `taken` after the first chunk, and no
  -- more wait than the ring holds, a write of a live connection, for a count of 32 bits that its buffer
  -- holds, puts the front of the buffer behind what waits: what waited, followed by what was written, is
  -- what the domain has taken, followed by what waits afterwards. It counts `bytes` down by as much,
  -- and says that it is done exactly when no byte is left and the connection is still alive.
  pub write-Queued :
      (sent : Bool) (buff : Text) (bytes : ℕ) (c : RingConn)
      → c.link.alive ≡ true
      → IsSending x c.shared
      → bytes < 2 ^ 32
      → bytes ≤ length buff
      → let o = write x peer sent buff bytes c in
        (unsent x c.shared ++ o.chunk
          ≡ taken (write_chunk x buff bytes c.shared).shared ++ unsent x o.conn.shared)
        × (o.chunk ≡ take (length o.chunk) buff)
        × (length o.chunk + o.bytes ≡ bytes)
        × (o.done ≡ (o.conn.link.alive && o.bytes == 0))
  write-Queued sent buff bytes c live s small given =
      let m = write_chunks x peer buff bytes c.shared in
      let q = write_chunks-Queued buff bytes c.shared s small given in
      subst
        (λ o.
          (unsent x c.shared ++ o.chunk
            ≡ taken (write_chunk x buff bytes c.shared).shared ++ unsent x o.conn.shared)
          × (o.chunk ≡ take (length o.chunk) buff)
          × (length o.chunk + o.bytes ≡ bytes)
          × (o.done ≡ (o.conn.link.alive && o.bytes == 0)))
        (sym (write_outcome sent buff bytes c live)) (q.back, q.front, q.count, refl)
