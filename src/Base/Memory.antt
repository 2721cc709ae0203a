-- ===== src/Base/Memory.antt =====
-- What a `memcpy` into a memory changes, and what it leaves.
use Prim.Native.Nat.{ℕ, zero, suc, ◌+◌, ◌-◌, ◌≤◌, ◌<◌}
use mathlib.Core.Path.{◌≡◌, refl, sym, ap, ◌∙◌}
use mathlib.Core.List.{[], ◌∷◌, ◌++◌, append_assoc}
use native.Mathlib.Omega.{arith}
use lixs.Base.Text.{Text, length, length-++, drop, take, splice, slice, length-take}

abbrev pub cell : Text → ℕ
cell [] = 0
cell (c ∷ m) = c

drop_nil : (n : ℕ) → drop n [] ≡ []
unfolding drop
drop_nil zero = refl
drop_nil (suc n) = refl

drop-drop : (i j : ℕ) (m : Text) → drop i (drop j m) ≡ drop (j + i) m
unfolding drop
drop-drop i zero m = ap (λ n. drop n m) (omega arith)
drop-drop i (suc j) [] = drop_nil i ∙ sym (drop_nil (suc j + i))
drop-drop i (suc j) (c ∷ m) =
    let e : suc (j + i) ≡ suc j + i = omega arith in drop-drop i j m ∙ ap (λ n. drop n (c ∷ m)) e

drop-++ : (j : ℕ) (s r : Text) → length s ≤ j → drop j (s ++ r) ≡ drop (j - length s) r
unfolding drop
drop-++ j [] r le = ap (λ n. drop n r) (omega arith)
drop-++ zero (c ∷ s) r le = absurd (omega arith)
drop-++ (suc j) (c ∷ s) r le = drop-++ j s r (omega arith) ∙ ap (λ n. drop n r) (omega arith)

take-++ : (s r : Text) → take (length s) (s ++ r) ≡ s
unfolding take
take-++ [] r = refl
take-++ (c ∷ s) r = ap (λ t. c ∷ t) (take-++ s r)

cell_in_front :
    (j off : ℕ) (m r : Text)
    → j < off
    → off ≤ length m
    → cell (drop j (take off m ++ r)) ≡ cell (drop j m)
unfolding drop take
cell_in_front j zero m r lt le = absurd (omega arith)
cell_in_front j (suc off) [] r lt le = absurd (omega arith)
cell_in_front zero (suc off) (c ∷ m) r lt le = refl
cell_in_front (suc j) (suc off) (c ∷ m) r lt le =
    cell_in_front j off m r (omega arith) (omega arith)

pub splice_before :
    (j off : ℕ) (s m : Text)
    → off + length s ≤ length m
    → j < off
    → cell (drop j (splice off s m)) ≡ cell (drop j m)
unfolding splice
splice_before j off s m fits lt =
    ap (λ t. cell (drop j t)) (append_assoc (take off m) s (drop (off + length s) m))
    ∙ cell_in_front j off m (s ++ drop (off + length s) m) lt (omega arith)

pub splice_behind :
    (j off : ℕ) (s m : Text)
    → off + length s ≤ length m
    → off + length s ≤ j
    → cell (drop j (splice off s m)) ≡ cell (drop j m)
unfolding splice
splice_behind j off s m fits le =
    let front = length-take off m (omega arith) in
    let prefix = length-++ (take off m) s in
    ap cell (
      drop-++ j (take off m ++ s) (drop (off + length s) m) (omega arith)
      ∙ drop-drop (j - length (take off m ++ s)) (off + length s) m
      ∙ ap (λ n. drop n m) (omega arith))

pub slice-splice :
    (off : ℕ) (s m : Text) → off + length s ≤ length m → slice off (length s) (splice off s m) ≡ s
unfolding splice drop
slice-splice off s m fits =
    let front = length-take off m (omega arith) in
    let r = drop (off + length s) m in
    let here : off - length (take off m) ≡ 0 = omega arith in
    ap (λ t. take (length s) (drop off t)) (append_assoc (take off m) s r)
    ∙ ap (take (length s))
        (drop-++ off (take off m) (s ++ r) (omega arith) ∙ ap (λ n. drop n (s ++ r)) here)
    ∙ take-++ s r

take_nil : (n : ℕ) → take n [] ≡ []
unfolding take
take_nil zero = refl
take_nil (suc n) = refl

pub take_split : (a b : ℕ) (m : Text) → take a m ++ take b (drop a m) ≡ take (a + b) m
unfolding take drop
take_split zero b m = ap (λ n. take n m) (omega arith)
take_split (suc a) b [] = take_nil b ∙ sym (take_nil (suc a + b))
take_split (suc a) b (c ∷ m) =
    let e : suc (a + b) ≡ suc a + b = omega arith in
    ap (λ t. c ∷ t) (take_split a b m) ∙ ap (λ n. take n (c ∷ m)) e

pub take_past : (n : ℕ) (m : Text) → n ≤ length m → length (drop n m) + n ≡ length m
unfolding drop
take_past zero m le = omega arith
take_past (suc n) [] le = absurd (omega arith)
take_past (suc n) (c ∷ m) le = (let rest = take_past n m (omega arith) in omega arith)

pub take_front : (s r : Text) (n : ℕ) → length s ≡ n → take n (s ++ r) ≡ s
take_front s r n e = ap (λ k. take k (s ++ r)) (sym e) ∙ take-++ s r

pub take-splice :
    (off : ℕ) (s m : Text)
    → off + length s ≤ length m
    → take (off + length s) (splice off s m) ≡ take off m ++ s
unfolding splice
take-splice off s m fits =
    let front = length-take off m (omega arith) in
    let both = length-++ (take off m) s in
    take_front (take off m ++ s) (drop (off + length s) m) (off + length s) (omega arith)

pub take_before-splice :
    (off : ℕ) (s m : Text) → off ≤ length m → take off (splice off s m) ≡ take off m
unfolding splice
take_before-splice off s m fits =
    ap (take off) (append_assoc (take off m) s (drop (off + length s) m))
    ∙ take_front (take off m) (s ++ drop (off + length s) m) off (length-take off m fits)

pub drop_front : (s r : Text) (n : ℕ) → length s ≡ n → drop n (s ++ r) ≡ r
unfolding drop
drop_front s r n e =
    let here : n - length s ≡ 0 = omega arith in
    drop-++ n s r (omega arith) ∙ ap (λ k. drop k r) here
