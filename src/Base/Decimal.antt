-- ===== src/Base/Decimal.antt =====
-- `std::to_string` and `std::stoll` on decimal numbers, as the program uses them.
pub mod RoundTrip
use Prim.Native.Nat.{ℕ, zero, suc, ◌+◌, ◌-◌, ◌*◌, ◌/◌, ◌%◌, ◌^◌}
use mathlib.Core.Bool.{Bool, true, false, ◌&&◌, ◌||◌}
use mathlib.Core.Option.{Option, none, some}
use mathlib.Core.List.{[], ◌∷◌, ◌++◌}
use lixs.Base.Tests.{ltb, leb, ◌==◌, if◌then◌else◌}
use lixs.Base.Text.{Text}

-- The fuel bounds the number of digits.
unfoldable pub digits : ℕ → ℕ → Text
digits zero n = []
digits (suc fuel) n =
    let more = digits fuel (n / 10) ++ (b'0' + n % 10) ∷ [] in
    if ltb n 10 then (b'0' + n) ∷ [] else more

unfoldable pub to_string : ℕ → Text
unfolding digits
to_string n = digits (suc n) n

abbrev pub is_digit : ℕ → Bool
is_digit c = leb b'0' c && leb c b'9'

-- The value so far, and whether there was a digit.
unfoldable pub scan_digits : Bool → ℕ → Text → Option ℕ
scan_digits false acc [] = none
scan_digits true acc [] = some acc
scan_digits false acc (c ∷ s) =
    let more = scan_digits true (acc * 10 + (c - b'0')) s in if is_digit c then more else none
scan_digits true acc (c ∷ s) =
    let more = scan_digits true (acc * 10 + (c - b'0')) s in if is_digit c then more else some acc

abbrev pub is_space : ℕ → Bool
is_space c = c == 32 || (leb 9 c && leb c 13)

unfoldable pub skip_spaces : Text → Text
skip_spaces [] = []
skip_spaces (c ∷ s) = let rest = skip_spaces s in if is_space c then rest else c ∷ s

-- The sign (`true` is minus) and the rest.
unfoldable pub take_sign : Text → Bool × Text
take_sign [] = (false, [])
take_sign (c ∷ s) =
    if c == b'-' then (true, s) else if c == b'+' then (false, s) else (false, c ∷ s)

abbrev pub in_range : Bool → Option ℕ → Option (Bool × ℕ)
in_range neg none = none
in_range true (some n) = if leb n (2 ^ 63) then some (true, n) else none
in_range false (some n) = if ltb n (2 ^ 63) then some (false, n) else none

-- The sign and the magnitude; `none` where `std::stoll` throws.
unfoldable pub stoll : Text → Option (Bool × ℕ)
unfolding scan_digits skip_spaces take_sign
stoll s = let (neg, rest) = take_sign (skip_spaces s) in in_range neg (scan_digits false 0 rest)
