-- ===== src/RingConn/Stream.antt =====
-- The requests of a domain as a queue of bytes, which the ring stores from `req_cons` to `req_prod`.
use mathlib.Core.Path.{subst}
use lixs.Base.{
  ℕ, zero, suc, ◌+◌, ◌-◌, ◌%◌, ◌^◌, ◌≤◌, ◌<◌, ◌≡◌, ◌∙◌, [], ◌∷◌, ◌++◌, refl, sym, ap, arith,
}
use lixs.Base.Memory.{cell}
use lixs.Base.Text.{Text, length, drop, take, slice}
use Prim.Native.Nat.{◌∣◌}
use native.Mathlib.Nat.{dvd-mul_right, mod-lt, mod-mod_of_dvd, mod-eq_of_lt, mod-add-mod, mod_self}
use lixs.RingConn.{XsRing, Interface, add32, sub32, min, read_len, read_chunk}
use lixs.RingConn.Chunk.{IsRing, read_len-bounds, min-left, min-right}

module _ (x : XsRing) where
  -- `n` bytes of a ring, one after the other from an index on.
  unfoldable pub stream : Text → ℕ → ℕ → Text
  stream buf c zero = []
  stream buf c (suc n) = cell (drop (x.mask c) buf) ∷ stream buf (add32 c 1) n

  -- What the domain has put into its ring and nobody has taken out.
  unfoldable pub pending : Interface → Text
  pending i = stream i.req i.req_cons (sub32 i.req_prod i.req_cons)

-- What the types of `xenstore_domain_interface` say of the requests.
pub record IsShared (x : XsRing) (i : Interface) : Type 0 where
  pub whole : length i.req ≡ x.size
  pub cons : i.req_cons < 2 ^ 32
  pub prod : i.req_prod < 2 ^ 32

module _ (x : XsRing) (r : IsRing x) where
  size_dvd : x.size ∣ 2 ^ 32
  size_dvd = subst (λ n. x.size ∣ n) r.divides (dvd-mul_right x.size r.turns)

  pub mask-add32 : (c k : ℕ) → x.mask (add32 c k) ≡ (x.mask c + k) % x.size
  mask-add32 c k =
      r.mask (add32 c k)
      ∙ mod-mod_of_dvd x.size {b = 2 ^ 32} (c + k) size_dvd
      ∙ sym (mod-add-mod c x.size k)
      ∙ sym (ap (λ m. (m + k) % x.size) (r.mask c))

  mask_next : (c k : ℕ) → x.mask c + k < x.size → x.mask (add32 c k) ≡ x.mask c + k
  mask_next c k inside = mask-add32 c k ∙ mod-eq_of_lt inside

  pub mask_end : (c k : ℕ) → x.mask c + k ≡ x.size → x.mask (add32 c k) ≡ 0
  mask_end c k e = mask-add32 c k ∙ rw e (mod_self x.size)

  pub stream-++ :
      (buf : Text) (c m n : ℕ)
      → c < 2 ^ 32
      → stream x buf c (m + n) ≡ stream x buf c m ++ stream x buf (add32 c m) n
  unfolding stream
  stream-++ buf c zero n small =
      let e : add32 c 0 ≡ c = omega arith in let e' : 0 + n ≡ n = omega arith in rw (e, e') refl
  stream-++ buf c (suc m) n small =
      let rest = stream-++ buf (add32 c 1) m n (omega arith) in
      let e : add32 (add32 c 1) m ≡ add32 c (suc m) = omega arith in
      let e' : suc m + n ≡ suc (m + n) = omega arith in
      rw e' (ap (λ s. cell (drop (x.mask c) buf) ∷ s) (rw e at rest))

  drop-cell : (j : ℕ) (m : Text) → j < length m → drop j m ≡ cell (drop j m) ∷ drop (suc j) m
  unfolding drop
  drop-cell zero [] inside = ground arith
  drop-cell zero (c ∷ m) inside = refl
  drop-cell (suc j) [] inside = ground arith
  drop-cell (suc j) (c ∷ m) inside = drop-cell j m (omega arith)

  pub slice-stream :
      (n c : ℕ) (buf : Text)
      → length buf ≡ x.size
      → x.mask c + n ≤ x.size
      → slice (x.mask c) n buf ≡ stream x buf c n
  unfolding stream take
  slice-stream zero c buf whole inside = refl
  slice-stream (suc zero) c buf whole inside = ap (take 1) (drop-cell (x.mask c) buf (omega arith))
  slice-stream (suc (suc n)) c buf whole inside =
      let next : x.mask (add32 c 1) ≡ suc (x.mask c) = mask_next c 1 (omega arith) ∙ omega arith in
      let rest = slice-stream (suc n) (add32 c 1) buf whole (omega arith) in
      ap (take (suc (suc n))) (drop-cell (x.mask c) buf (omega arith))
      ∙ ap (λ s. cell (drop (x.mask c) buf) ∷ s)
          (ap (λ j. take (suc n) (drop j buf)) (sym next) ∙ rest)

  pub read_len-pending :
      (bytes : ℕ) (i : Interface) → read_len x bytes i ≤ sub32 i.req_prod i.req_cons
  unfolding read_len
  read_len-pending bytes i =
      let diff = sub32 i.req_prod i.req_cons in
      let a = min-right (x.size - x.mask i.req_cons) diff in
      let b = min-left (min (x.size - x.mask i.req_cons) diff) bytes in omega arith

  pub read_chunk-pending :
      (bytes : ℕ) (i : Interface)
      → IsShared x i
      → let m = read_chunk x bytes i in
        (pending x i ≡ m.chunk ++ pending x m.shared) × IsShared x m.shared
  unfolding read_chunk pending
  read_chunk-pending bytes i s =
      let len = read_len x bytes i in
      let diff = sub32 i.req_prod i.req_cons in
      let there = read_len-pending bytes i in
      let (inside, within) = read_len-bounds x r bytes i in
      let cut : len + (diff - len) ≡ diff = omega arith in
      let left : sub32 i.req_prod (add32 i.req_cons len) ≡ diff - len =
        omega (arith, s.cons, s.prod) in
      (
        ap (stream x i.req i.req_cons) (sym cut)
            ∙ stream-++ i.req i.req_cons len (diff - len) s.cons
            ∙ ap (λ n. stream x i.req i.req_cons len ++ stream x i.req (add32 i.req_cons len) n)
                (sym left)
            ∙ ap
                (λ t.
                  t
                  ++ stream x i.req (add32 i.req_cons len)
                      (sub32 i.req_prod (add32 i.req_cons len)))
                (sym (slice-stream len i.req_cons i.req s.whole inside)),
        record { whole = s.whole; cons = mod-lt (i.req_cons + len) (omega arith); prod = s.prod },
      )
