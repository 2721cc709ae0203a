-- ===== src/Base/Decimal/RoundTrip.antt =====
-- The decimal numbers that are printed are read back.
use Prim.Native.Nat.{ℕ, zero, suc, ◌+◌, ◌*◌, ◌/◌, ◌%◌, ◌^◌, ◌<◌}
use mathlib.Core.Path.{◌≡◌, refl, sym, ap, ◌∙◌}
use mathlib.Core.Logic.{inl, inr}
use mathlib.Core.Bool.{Bool, true, false}
use mathlib.Core.Option.{some}
use mathlib.Core.List.{[], ◌∷◌, ◌++◌, append_assoc, append-nil}
use native.Mathlib.Omega.{arith}
use lixs.Base.Tests.{ltb, ltb-cases, ◌==◌, if_true, if_false}
use lixs.Base.Text.{Text}
use lixs.Base.Decimal.{
  digits, to_string, is_digit, is_space, scan_digits, skip_spaces, take_sign, in_range, stoll,
}

is_digit-digit : (d : ℕ) → d < 10 → is_digit (48 + d) ≡ true
is_digit-digit d small = ground arith

scan_digit :
    (b : Bool) (acc d : ℕ) (s : Text)
    → d < 10
    → scan_digits b acc ((48 + d) ∷ s) ≡ scan_digits true (acc * 10 + d) s
unfolding scan_digits
scan_digit false acc d s small =
    if_true _ _ (is_digit-digit d small) ∙ ap (λ n. scan_digits true n s) (omega arith)
scan_digit true acc d s small =
    if_true _ _ (is_digit-digit d small) ∙ ap (λ n. scan_digits true n s) (omega arith)

scan_digits-digits :
    (fuel n : ℕ) (b : Bool) (rest : Text)
    → n < fuel
    → scan_digits b 0 (digits fuel n ++ rest) ≡ scan_digits true n rest
unfolding digits
scan_digits-digits zero n b rest enough = absurd (omega arith)
scan_digits-digits (suc fuel) n b rest enough = elim (ltb-cases n 10) [
  | inl (e, small) ↦
      rw (e, digits) (scan_digit b 0 n rest small ∙ ap (λ k. scan_digits true k rest) (omega arith))
  | inr (e, large) ↦
      rw (e, digits)
        (ap (scan_digits b 0) (append_assoc (digits fuel (n / 10)) ((48 + n % 10) ∷ []) rest)
          ∙ scan_digits-digits fuel (n / 10) b ((48 + n % 10) ∷ rest) (omega arith)
          ∙ scan_digit true (n / 10) (n % 10) rest (omega arith)
          ∙ ap (λ k. scan_digits true k rest) (omega arith))
]

digits_first :
    (fuel n : ℕ) → n < fuel → (d : ℕ) × (s : Text) × (d < 10) × (digits fuel n ≡ (48 + d) ∷ s)
unfolding digits
digits_first zero n enough = absurd (omega arith)
digits_first (suc fuel) n enough = elim (ltb-cases n 10) [
  | inl (e, small) ↦ (n, [], small, rw (e, digits) refl)
  | inr (e, large) ↦
      let (d, s, small, first) = digits_first fuel (n / 10) (omega arith) in
      (d, s ++ (48 + n % 10) ∷ [], small, rw (e, digits) (ap (λ t. t ++ (48 + n % 10) ∷ []) first))
]

skip_digit : (d : ℕ) (s : Text) → d < 10 → skip_spaces ((48 + d) ∷ s) ≡ (48 + d) ∷ s
unfolding skip_spaces
skip_digit d s small = (let e : is_space (48 + d) ≡ false = ground arith in if_false _ _ e)

sign_digit : (d : ℕ) (s : Text) → d < 10 → take_sign ((48 + d) ∷ s) ≡ (false, (48 + d) ∷ s)
unfolding take_sign
sign_digit d s small =
    let e : (48 + d == 45) ≡ false = ground arith in
    let e' : (48 + d == 43) ≡ false = ground arith in if_false _ _ e ∙ if_false _ _ e'

scan_digits-to_string : (n : ℕ) → scan_digits false 0 (digits (suc n) n) ≡ some n
unfolding scan_digits
scan_digits-to_string n =
    ap (scan_digits false 0) (sym (append-nil (digits (suc n) n)))
    ∙ scan_digits-digits (suc n) n false [] (omega arith)

-- What is left of a number's text behind spaces and a sign is all of it.
sign_digits : (n : ℕ) → take_sign (skip_spaces (digits (suc n) n)) ≡ (false, digits (suc n) n)
sign_digits n =
    let (d, s, small, first) = digits_first (suc n) n (omega arith) in
    ap (λ t. take_sign (skip_spaces t)) first
    ∙ ap take_sign (skip_digit d s small)
    ∙ sign_digit d s small
    ∙ ap (λ t. (false, t)) (sym first)

pub stoll-to_string : (n : ℕ) → n < 2 ^ 63 → stoll (to_string n) ≡ some (false, n)
unfolding stoll to_string
stoll-to_string n small =
    let e : ltb n (2 ^ 63) ≡ true = ground arith in
    ap (λ (r : Bool × Text). in_range r.0 (scan_digits false 0 r.1)) (sign_digits n)
    ∙ ap (in_range false) (scan_digits-to_string n)
    ∙ if_true _ _ e

-- A printed number is not empty.
pub to_string_first : (n : ℕ) → (c : ℕ) × (s : Text) × (to_string n ≡ c ∷ s)
unfolding to_string
to_string_first n =
    (let (d, s, small, first) = digits_first (suc n) n (omega arith) in (48 + d, s, first))
