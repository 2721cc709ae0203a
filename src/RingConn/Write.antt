-- ===== src/RingConn/Write.antt =====
-- The responses as a queue of bytes, which the ring stores from `rsp_cons` to `rsp_prod`.
use native.Mathlib.Nat.{mod-lt, mod-eq_of_lt, mod-eq-sub-mod}
use lixs.Base.{
  ℕ, zero, suc, ◌+◌, ◌-◌, ◌%◌, ◌^◌, ◌≤◌, ◌<◌, ◌≡◌, ◌∙◌, ◌⊎◌, ◌++◌, refl, sym, ap, inl, inr,
  ltb-cases, arith,
}
use lixs.Base.Memory.{cell, splice_before, splice_behind, slice-splice}
use lixs.Base.Text.{Text, length, drop, take, splice, slice, length-take, length-splice}
use lixs.RingConn.{XsRing, Interface, add32, sub32, min, write_len, write_chunk}
use lixs.RingConn.Chunk.{IsRing, mask-small, min-left, min-right, write_len-bounds}
use lixs.RingConn.Stream.{stream, stream-++, slice-stream, mask-add32}

module _ (x : XsRing) where
  -- What the domain has not taken out of its ring yet.
  unfoldable pub unsent : Interface → Text
  unsent i = stream x i.rsp i.rsp_cons (sub32 i.rsp_prod i.rsp_cons)

-- What the types of `xenstore_domain_interface` say of the responses, and that no more of them wait
-- than the ring holds.
pub record IsSending (x : XsRing) (i : Interface) : Type 0 where
  pub whole : length i.rsp ≡ x.size
  pub cons : i.rsp_cons < 2 ^ 32
  pub prod : i.rsp_prod < 2 ^ 32
  pub sane : sub32 i.rsp_prod i.rsp_cons ≤ x.size

module _ (x : XsRing) (r : IsRing x) where
  -- A remainder that goes at most once around.
  mod-cases :
      (n : ℕ)
      → n < x.size + x.size
      → ((n % x.size ≡ n) × (n < x.size)) ⊎ ((n % x.size ≡ n - x.size) × (x.size ≤ n))
  mod-cases n small = elim (ltb-cases n x.size) [
    | inl (_, under) ↦ inl (mod-eq_of_lt under, under)
    | inr (_, over) ↦ inr (mod-eq-sub-mod over ∙ mod-eq_of_lt (omega arith), over)
  ]

  stream_same :
      (n c : ℕ) (buf buf' : Text)
      → c < 2 ^ 32
      → ((k : ℕ)
          → k < n
          → cell (drop (x.mask (add32 c k)) buf') ≡ cell (drop (x.mask (add32 c k)) buf))
      → stream x buf' c n ≡ stream x buf c n
  unfolding stream
  stream_same zero c buf buf' small same = refl
  stream_same (suc n) c buf buf' small same =
      let here : add32 c 0 ≡ c = omega arith in
      let first =
        ap (λ d. cell (drop (x.mask d) buf')) (sym here)
        ∙ same 0 (omega arith)
        ∙ ap (λ d. cell (drop (x.mask d) buf)) here in
      let rest = stream_same n (add32 c 1) buf buf' (omega arith) (λ k lt.
        let next : add32 (add32 c 1) k ≡ add32 c (k + 1) = omega arith in
        ap (λ d. cell (drop (x.mask d) buf')) next
        ∙ same (k + 1) (omega arith)
        ∙ ap (λ d. cell (drop (x.mask d) buf)) (sym next)) in
      cc

  write_len-room :
      (bytes : ℕ) (i : Interface)
      → IsSending x i
      → sub32 i.rsp_prod i.rsp_cons + write_len x bytes i ≤ x.size
  unfolding write_len
  write_len-room bytes i s =
      let diff = sub32 i.rsp_prod i.rsp_cons in
      let sane = s.sane in
      let small = r.small in
      let free : sub32 x.size diff ≡ x.size - diff = omega arith in
      let a = min-right (x.size - x.mask i.rsp_prod) (sub32 x.size diff) in
      let b = min-left (min (x.size - x.mask i.rsp_prod) (sub32 x.size diff)) bytes in omega arith

  -- What is put behind the waiting bytes of a ring does not touch them.
  apart :
      (a diff len k : ℕ)
      → k < diff
      → diff + len ≤ x.size
      → (x.mask a + k) % x.size < (x.mask a + diff) % x.size
        ⊎ ((x.mask a + diff) % x.size + len ≤ (x.mask a + k) % x.size)
  apart a diff len k lt fits =
      let short = mask-small x r a in
      elim (mod-cases (x.mask a + k) (omega arith)) [
        | inl (e, near) ↦ elim (mod-cases (x.mask a + diff) (omega arith)) [
          | inl (e', near') ↦ inl (omega arith)
          | inr (e', far') ↦ inr (omega arith)
        ]
        | inr (e, far) ↦ elim (mod-cases (x.mask a + diff) (omega arith)) [
          | inl (e', near') ↦ inl (omega arith)
          | inr (e', far') ↦ inl (omega arith)
        ]
      ]

  -- Where no more responses wait than the ring holds, what a chunk writes joins the end of the bytes
  -- that wait for the domain: none of them is overwritten, and the indices stay such.
  pub write_chunk-unsent :
      (buff : Text) (bytes : ℕ) (i : Interface)
      → IsSending x i
      → bytes ≤ length buff
      → let m = write_chunk x buff bytes i in
        (unsent x m.shared ≡ unsent x i ++ m.chunk) × IsSending x m.shared
  unfolding write_chunk unsent
  write_chunk-unsent buff bytes i s given =
      let len = write_len x bytes i in
      let diff = sub32 i.rsp_prod i.rsp_cons in
      let off = x.mask i.rsp_prod in
      let chunk = take len buff in
      let after = splice off chunk i.rsp in
      let (inside, within) = write_len-bounds x r bytes i in
      let room = write_len-room bytes i s in
      let small = r.small in
      let exact : length chunk ≡ len = length-take len buff (omega arith) in
      let back : add32 i.rsp_cons diff ≡ i.rsp_prod = omega (arith, s.cons, s.prod) in
      let more : sub32 (add32 i.rsp_prod len) i.rsp_cons ≡ diff + len =
        omega (arith, s.cons, s.prod) in
      let size = length-splice off chunk i.rsp (omega (arith, s.whole)) ∙ s.whole in
      let off_at : off ≡ (x.mask i.rsp_cons + diff) % x.size =
        ap x.mask (sym back) ∙ mask-add32 x r i.rsp_cons diff in
      let kept = stream_same diff i.rsp_cons i.rsp after s.cons (λ k lt.
        let at_k = mask-add32 x r i.rsp_cons k in
        elim (apart i.rsp_cons diff len k lt room) [
          | inl before ↦
              splice_before (x.mask (add32 i.rsp_cons k)) off chunk i.rsp (omega (arith, s.whole))
                (omega arith)
          | inr behind ↦
              splice_behind (x.mask (add32 i.rsp_cons k)) off chunk i.rsp (omega (arith, s.whole))
                (omega arith)
        ]) in
      let put = slice-splice off chunk i.rsp (omega (arith, s.whole)) in
      let new : stream x after i.rsp_prod len ≡ chunk =
        sym (slice-stream x r len i.rsp_prod after size inside)
        ∙ ap (λ n. slice off n after) (sym exact)
        ∙ put in
      (
        ap (stream x after i.rsp_cons) more
            ∙ stream-++ x r after i.rsp_cons diff len s.cons
            ∙ ap (λ t. t ++ stream x after (add32 i.rsp_cons diff) len) kept
            ∙ ap (λ c. stream x i.rsp i.rsp_cons diff ++ stream x after c len) back
            ∙ ap (λ t. stream x i.rsp i.rsp_cons diff ++ t) new,
        record {
          whole = size;
          cons = s.cons;
          prod = mod-lt (i.rsp_prod + len) (omega arith);
          sane = omega arith;
        },
      )
