-- ===== src/RingConn/Chunk.antt =====
-- What a chunk moves, whatever the indices that the domain has left in the shared memory.
use lixs.Base.{ℕ, ◌+◌, ◌-◌, ◌*◌, ◌%◌, ◌^◌, ◌≤◌, ◌<◌, ◌≡◌, ◌∙◌, inl, inr, ltb-cases, arith}
use lixs.Base.Text.{Text, length, take, length-take, length-slice, length-splice}
use native.Mathlib.Nat.{mod-lt}
use lixs.RingConn.{XsRing, Interface, sub32, min, read_len, read_chunk, write_len, write_chunk}

-- What the indices rely on, which wrap at 32 bits: the ring's size, a power of two, divides their
-- number, and the mask takes the remainder.
pub record IsRing (x : XsRing) : Type 0 where
  pub turns : ℕ
  pub divides : x.size * turns ≡ 2 ^ 32
  pub small : x.size < 2 ^ 32
  pub mask : (i : ℕ) → x.mask i ≡ i % x.size

pub min-left : (a b : ℕ) → min a b ≤ a
min-left a b = elim (ltb-cases b a) [
  | inl (e, less) ↦ rw e (omega arith)
  | inr (e, _) ↦ rw e (omega arith)
]

pub min-right : (a b : ℕ) → min a b ≤ b
min-right a b = elim (ltb-cases b a) [ inl (e, less) ↦ rw e (omega arith) | inr (e, le) ↦ rw e le ]

module _ (x : XsRing) (r : IsRing x) where
  pub size_pos : 0 < x.size
  size_pos = elim (ltb-cases 0 x.size) [
    | inl (_, some_room) ↦ some_room
    | inr (_, none_left) ↦
        let e : x.size ≡ 0 = omega arith in
        let empty : 0 * r.turns ≡ 2 ^ 32 = rw e at r.divides in omega arith
  ]

  pub mask-small : (i : ℕ) → x.mask i < x.size
  mask-small i = rw (r.mask i) (mod-lt i size_pos)

  pub sub32-exact : (a b : ℕ) → b ≤ a → a < 2 ^ 32 → sub32 a b ≡ a - b
  sub32-exact a b le small = omega arith

  pub read_len-bounds :
      (bytes : ℕ) (i : Interface)
      → (x.mask i.req_cons + read_len x bytes i ≤ x.size) × (read_len x bytes i ≤ bytes)
  unfolding read_len
  read_len-bounds bytes i =
      let short = mask-small i.req_cons in
      let diff = sub32 i.req_prod i.req_cons in
      let a = min-left (x.size - x.mask i.req_cons) diff in
      let b = min-left (min (x.size - x.mask i.req_cons) diff) bytes in
      (omega arith, min-right _ bytes)

  pub write_len-bounds :
      (bytes : ℕ) (i : Interface)
      → (x.mask i.rsp_prod + write_len x bytes i ≤ x.size) × (write_len x bytes i ≤ bytes)
  unfolding write_len
  write_len-bounds bytes i =
      let short = mask-small i.rsp_prod in
      let room = sub32 x.size (sub32 i.rsp_prod i.rsp_cons) in
      let a = min-left (x.size - x.mask i.rsp_prod) room in
      let b = min-left (min (x.size - x.mask i.rsp_prod) room) bytes in
      (omega arith, min-right _ bytes)

  pub length-read_chunk :
      (bytes : ℕ) (i : Interface)
      → length i.req ≡ x.size
      → length (read_chunk x bytes i).chunk ≡ read_len x bytes i
  unfolding read_chunk
  length-read_chunk bytes i whole =
      let (inside, within) = read_len-bounds bytes i in
      length-slice (x.mask i.req_cons) (read_len x bytes i) i.req (omega arith)

  -- Whatever the two indices are, in a memory of the size of the ring, what a chunk reads for a
  -- count of 32 bits is within the ring and no more than was asked for, and `bytes` goes down by as
  -- much.
  pub read_chunk-bounds :
      (bytes : ℕ) (i : Interface)
      → length i.req ≡ x.size
      → bytes < 2 ^ 32
      → let m = read_chunk x bytes i in
        (x.mask i.req_cons + length m.chunk ≤ length i.req) × (length m.chunk + m.bytes ≡ bytes)
  unfolding read_chunk
  read_chunk-bounds bytes i whole small =
      let (inside, within) = read_len-bounds bytes i in
      let exact = length-read_chunk bytes i whole in
      let left = sub32-exact bytes (read_len x bytes i) within small in (omega arith, omega arith)

  -- Whatever the two indices are, in a memory of the size of the ring, what a chunk writes from a
  -- buffer that holds what is asked for, for a count of 32 bits, is within the ring, `bytes` goes
  -- down by as much, and the memory keeps its size.
  pub write_chunk-bounds :
      (buff : Text) (bytes : ℕ) (i : Interface)
      → length i.rsp ≡ x.size
      → bytes < 2 ^ 32
      → bytes ≤ length buff
      → let m = write_chunk x buff bytes i in
        (x.mask i.rsp_prod + length m.chunk ≤ length i.rsp)
        × (length m.chunk + m.bytes ≡ bytes)
        × (length m.shared.rsp ≡ x.size)
  unfolding write_chunk
  write_chunk-bounds buff bytes i whole small given =
      let (inside, within) = write_len-bounds bytes i in
      let exact = length-take (write_len x bytes i) buff (omega arith) in
      let left = sub32-exact bytes (write_len x bytes i) within small in
      let kept =
        length-splice (x.mask i.rsp_prod) (take (write_len x bytes i) buff) i.rsp (omega arith) in
      (omega arith, omega arith, kept ∙ whole)
