-- ===== src/Base/Key.antt =====
-- What `std::map` and `std::set` ask of a key: equality, and the order of iteration.
use Prim.Native.Nat.{ℕ, compare, Ordering}
use mathlib.Core.Bool.{Bool, true, false}
use native.Mathlib.Decide.{ℕ_discrete}

pub record Key {ℓ} (K : Type ℓ) : Type ℓ where
  pub dec : Discrete K
  pub lt : K → K → Bool

abbrev nat_lt : ℕ → ℕ → Bool
nat_lt a b = elim (compare a b) [ Ordering.lt ↦ true | _ ↦ false ]

instance abbrev pub nat_key : Key ℕ
nat_key = record { dec = ℕ_discrete; lt = nat_lt }
