-- ===== src/Base/Text.antt =====
-- `std::string` as the list of its bytes, in the order that `std::less` compares.
use Prim.Native.Nat.{ℕ, zero, suc, ◌+◌, ◌-◌, ◌≤◌, compare, Ordering}
use Prim.Native.Char.{code}
use Prim.Native.String.{String}
use mathlib.Core.Path.{◌≡◌, refl}
use native.Mathlib.Omega.{arith}
use mathlib.Core.Bool.{Bool, true, false}
use mathlib.Core.List.{List, [], ◌∷◌, ◌++◌}
use native.Mathlib.Decide.{ℕ_discrete}
use lixs.Base.Key.{Key}

abbrev pub Text : Type 0
Text = List ℕ

abbrev pub codes : String → Text
codes String.[] = []
codes (String.◌∷◌ c s) = code c ∷ codes s

abbrev pub length {ℓ} : {A : Type ℓ} → List A → ℕ
length [] = 0
length (c ∷ s) = suc (length s)

head_eq : {c d : ℕ} {s t : Text} → c ∷ s ≡ d ∷ t → c ≡ d
head_eq e = cc

tail_eq : {c d : ℕ} {s t : Text} → c ∷ s ≡ d ∷ t → s ≡ t
tail_eq e = cc

nil-ne-cons : {d : ℕ} {t : Text} → [] ≡ d ∷ t → ⊥
nil-ne-cons e = cc

cons-ne-nil : {d : ℕ} {t : Text} → d ∷ t ≡ [] → ⊥
cons-ne-nil e = cc

abbrev same_tail : {c d : ℕ} {s t : Text} → Dec (c ≡ d) → Dec (s ≡ t) → Dec (c ∷ s ≡ d ∷ t)
same_tail (yes p) (yes q) = yes (λ i. p i ∷ q i)
same_tail (yes p) (no q) = no (λ e. q (tail_eq e))
same_tail (no p) _ = no (λ e. p (head_eq e))

unfoldable pub text_dec : Discrete Text
unfolding ℕ_discrete nil-ne-cons cons-ne-nil head_eq tail_eq
text_dec [] [] = yes refl
text_dec [] (d ∷ t) = no nil-ne-cons
text_dec (c ∷ s) [] = no cons-ne-nil
text_dec (c ∷ s) (d ∷ t) = same_tail (ℕ_discrete c d) (text_dec s t)

abbrev text_lt : Text → Text → Bool
text_lt s [] = false
text_lt [] (d ∷ t) = true
text_lt (c ∷ s) (d ∷ t) = elim (compare c d) [
  | Ordering.lt ↦ true
  | Ordering.eq ↦ text_lt s t
  | Ordering.gt ↦ false
]

instance abbrev pub text_key : Key Text
text_key = record { dec = text_dec; lt = text_lt }

first_eq : {a b c d : Text} → ◌≡◌ {A = Text × Text} (a, b) (c, d) → a ≡ c
first_eq e = cc

second_eq : {a b c d : Text} → ◌≡◌ {A = Text × Text} (a, b) (c, d) → b ≡ d
second_eq e = cc

abbrev both_eq :
    {a b c d : Text} → Dec (a ≡ c) → Dec (b ≡ d) → Dec (◌≡◌ {A = Text × Text} (a, b) (c, d))
both_eq (yes p) (yes q) = yes (λ i. (p i, q i))
both_eq (yes p) (no q) = no (λ e. q (second_eq e))
both_eq (no p) _ = no (λ e. p (first_eq e))

unfoldable pub pair_dec : Discrete (Text × Text)
unfolding first_eq second_eq text_dec
pair_dec (a, b) (c, d) = both_eq (text_dec a c) (text_dec b d)

abbrev pair_lt : Text × Text → Text × Text → Bool
pair_lt (a, b) (c, d) = elim (text_lt a c) [
  | true ↦ true
  | false ↦ elim (text_lt c a) [ true ↦ false | false ↦ text_lt b d ]
]

instance abbrev pub pair_key : Key (Text × Text)
pair_key = record { dec = pair_dec; lt = pair_lt }

pub length-++ {ℓ} : {A : Type ℓ} (s t : List A) → length (s ++ t) ≡ length s + length t
length-++ [] t = omega arith
length-++ (c ∷ s) t = (let rest = length-++ s t in omega arith)

-- The memory from an offset on, and what stands before it.
unfoldable pub drop : ℕ → Text → Text
drop zero m = m
drop (suc n) [] = []
drop (suc n) (c ∷ m) = drop n m

unfoldable pub take : ℕ → Text → Text
take zero m = []
take (suc n) [] = []
take (suc n) (c ∷ m) = c ∷ take n m

-- `memcpy` into a memory at an offset, and `memcpy` of `n` bytes out of it.
unfoldable pub splice : ℕ → Text → Text → Text
splice off s m = take off m ++ s ++ drop (off + length s) m

abbrev pub slice : ℕ → ℕ → Text → Text
slice off n m = take n (drop off m)

pub length-take : (n : ℕ) (m : Text) → n ≤ length m → length (take n m) ≡ n
unfolding take
length-take zero m fits = refl
length-take (suc n) [] fits = ground arith
length-take (suc n) (c ∷ m) fits = (let rest = length-take n m (omega arith) in omega arith)

pub length-drop : (n : ℕ) (m : Text) → length (drop n m) ≡ length m - n
unfolding drop
length-drop zero m = omega arith
length-drop (suc n) [] = omega arith
length-drop (suc n) (c ∷ m) = (let rest = length-drop n m in omega arith)

pub length-slice : (off n : ℕ) (m : Text) → off + n ≤ length m → length (slice off n m) ≡ n
length-slice off n m fits = length-take n (drop off m) (rw (length-drop off m) (omega arith))

pub length-splice :
    (off : ℕ) (s m : Text) → off + length s ≤ length m → length (splice off s m) ≡ length m
unfolding splice
length-splice off s m fits =
    let rest = length-drop (off + length s) m in
    let front = length-take off m (omega arith) in
    let both = length-++ (take off m) s in
    let all = length-++ (take off m ++ s) (drop (off + length s) m) in
    let done : length (take off m ++ s ++ drop (off + length s) m) ≡ length m = omega arith in done
