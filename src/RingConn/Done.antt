-- ===== src/RingConn/Done.antt =====
-- A read that finds all its bytes pending is done at once, also across the end of the ring.

use mathlib.Core.Path.{subst}
use mathlib.Core.List.{append-nil}
use lixs.Base.{
  ℕ, ◌+◌, ◌-◌, ◌^◌, ◌≤◌, ◌<◌, ◌≡◌, ◌∙◌, ◌⊎◌, Bool, true, false, ◌&&◌, [], refl, sym, inl, inr, ◌==◌,
  ltb-cases, Bool-cases, arith,
}
use lixs.Base.Text.{length}
use lixs.Conn.{Link}
use lixs.RingConn.{
  XsRing, Interface, RingConn, sub32, min, positive, read_len, read_chunk, read_chunks, want_read,
  notified, read,
}
use lixs.RingConn.Chunk.{IsRing, length-read_chunk, mask-small, read_chunk-bounds}
use lixs.RingConn.Stream.{IsShared, read_len-pending, pending, read_chunk-pending, mask_end}
use lixs.RingConn.Read.{Grows, read_outcome, read_chunks-Fetched}

-- How many bytes are pending.
unfoldable pub unread : Interface → ℕ
unread i = sub32 i.req_prod i.req_cons

positive_small : (n : ℕ) → 0 < n → n < 2 ^ 31 → positive n ≡ true
unfolding positive
positive_small n some_left small = ground arith

boundary : (n j : ℕ) → 0 < n → n < 2 ^ 31 → j ≡ 0 → positive n && j == 0 ≡ true
boundary n j some_left small e = rw (positive_small n some_left small, e) refl

and_right : (a : Bool) (j : ℕ) → a && j == 0 ≡ true → j ≡ 0
and_right true j e = ground arith
and_right false j e = ground arith

both-ways : {b : Bool} → b ≡ true → b ≡ false → ⊥
both-ways e e' = cc

settled-alive :
    (notify : Bool) (bytes : ℕ) (c : Link)
    → (notified notify true (want_read bytes c)).alive ≡ c.alive
unfolding want_read
settled-alive notify bytes c = ground arith

min-cases :
    (room diff bytes : ℕ)
    → bytes ≤ diff
    → (min (min room diff) bytes ≡ bytes)
      ⊎ ((min (min room diff) bytes ≡ room) × (min (min room diff) bytes < bytes))
min-cases room diff bytes there = elim (ltb-cases diff room) [
  | inl (e, less) ↦ inl (rw e (ground arith))
  | inr (e, more) ↦ elim (ltb-cases bytes room) [
    | inl (e', less) ↦ inl (rw e (rw e' refl))
    | inr (e', le) ↦ elim (ltb-cases room bytes) [
      | inl (_, under) ↦ inr (rw e (rw e' refl), rw e (rw e' under))
      | inr (_, over) ↦ inl (rw e (rw e' (omega arith)))
    ]
  ]
]

-- A domain that does nothing meanwhile.
pub alone : (x : XsRing) → Grows x (λ i. i) (λ i. [])
unfolding Grows
alone x i s = (s, sym (append-nil (pending x i)))

module _ (x : XsRing) (r : IsRing x) where
  read_len-cases :
      (bytes : ℕ) (i : Interface)
      → bytes ≤ unread i
      → (read_len x bytes i ≡ bytes)
        ⊎ ((x.mask i.req_cons + read_len x bytes i ≡ x.size) × (read_len x bytes i < bytes))
  unfolding read_len unread
  read_len-cases bytes i there =
      let short = mask-small x r i.req_cons in
      elim (min-cases (x.size - x.mask i.req_cons) (sub32 i.req_prod i.req_cons) bytes there) [
        | inl e ↦ inl e
        | inr (e, less) ↦ inr (omega arith, less)
      ]

  unread-read_chunk :
      (bytes : ℕ) (i : Interface)
      → IsShared x i
      → unread (read_chunk x bytes i).shared ≡ unread i - read_len x bytes i
  unfolding read_chunk unread
  unread-read_chunk bytes i s =
      let there = read_len-pending x r bytes i in omega (arith, s.cons, s.prod)

  mask-read_chunk :
      (bytes : ℕ) (i : Interface)
      → x.mask i.req_cons + read_len x bytes i ≡ x.size
      → x.mask (read_chunk x bytes i).shared.req_cons ≡ 0
  unfolding read_chunk
  mask-read_chunk bytes i at_end = mask_end x r i.req_cons (read_len x bytes i) at_end

  read_chunks-all :
      (bytes : ℕ) (i : Interface)
      → IsShared x i
      → bytes < 2 ^ 31
      → bytes ≤ unread i
      → unread i ≤ x.size
      → (read_chunks x (λ j. j) bytes i).bytes ≡ 0
  unfolding read_chunks
  read_chunks-all bytes i s small there sane =
      let first = read_chunk x bytes i in
      let (_, s1) = read_chunk-pending x r bytes i s in
      let len1 = length-read_chunk x r bytes i s.whole in
      let left1 = unread-read_chunk bytes i s in
      let (_, count1) = read_chunk-bounds x r bytes i s.whole (omega arith) in
      let second = read_chunk x first.bytes first.shared in
      let len2 = length-read_chunk x r first.bytes first.shared s1.whole in
      let (_, count2) = read_chunk-bounds x r first.bytes first.shared s1.whole (omega arith) in
      let again = positive first.bytes && x.mask first.shared.req_cons == 0 in
      elim (Bool-cases again) [
        | inl more ↦
            rw (more, read_chunks)
              (elim (read_len-cases first.bytes first.shared (omega arith)) [
                | inl full ↦ omega arith
                | inr (at_end, part) ↦
                    let z = and_right (positive first.bytes) (x.mask first.shared.req_cons) more in
                    omega arith
              ])
        | inr over ↦ elim (read_len-cases bytes i there) [
          | inl full ↦ rw (over, read_chunks) (omega arith)
          | inr (at_end, part) ↦
              let whole =
                boundary first.bytes (x.mask first.shared.req_cons) (omega arith) (omega arith)
                  (mask-read_chunk bytes i at_end) in
              elim (both-ways whole over) [ ]
        ]
      ]

  -- A live connection whose notifications succeed, with indices that say that no more is pending than
  -- the ring holds: a read that asks for no more than is pending, and less than 2 ^ 31, is done at its
  -- first call where the domain does nothing meanwhile, wherever
  -- the bytes stand in the ring, and gives all the bytes that were asked for.
  pub read-done :
      (bytes : ℕ) (c : RingConn)
      → c.link.alive ≡ true
      → IsShared x c.shared
      → bytes < 2 ^ 31
      → bytes ≤ unread c.shared
      → unread c.shared ≤ x.size
      → let o = read x (λ i. i) true bytes c in (o.done ≡ true) × (length o.chunk ≡ bytes)
  read-done bytes c live s small there sane =
      let m = read_chunks x (λ i. i) bytes c.shared in
      let link = notified m.notify true (want_read m.bytes c.link) in
      let none_left = read_chunks-all bytes c.shared s small there sane in
      let f = read_chunks-Fetched x r (λ i. i) (λ i. []) (alone x) bytes c.shared s (omega arith) in
      let up : link.alive ≡ true = settled-alive m.notify m.bytes c.link ∙ live in
      let done : link.alive && m.bytes == 0 ≡ true = rw (up, none_left) refl in
      subst (λ o. (o.done ≡ true) × (length o.chunk ≡ bytes))
        (sym (read_outcome x r (λ i. i) (λ i. []) (alone x) true bytes c live))
        (done, omega (arith, f.count))
