-- ===== src/Base/Map.antt =====
-- `std::map` as an association list kept in the order of its keys, so that iteration is the recursion
-- on it.
use mathlib.Core.Path.{◌≡◌, refl}
use mathlib.Core.Logic.{ite}
use mathlib.Core.Bool.{Bool, true, false}
use mathlib.Core.Option.{Option, none, some}
use mathlib.Core.List.{List, [], ◌∷◌}
use native.Mathlib.Omega.{arith}
use lixs.Base.Key.{Key}

abbrev pub Map : Type 0 → Type 0 → Type 0
Map K V = List (K × V)

module _ {K V : Type 0} where
  abbrev pub is_empty : Map K V → Bool
  is_empty [] = true
  is_empty (e ∷ m) = false

module _ {K V : Type 0} ⦃key : Key K⦄ where
  abbrev before : Bool → Map K V → Map K V → Map K V
  before true here later = here
  before false here later = later

  unfoldable pub find : K → Map K V → Option V
  find k [] = none
  find k ((j, v) ∷ m) = ite (key.dec j k) (some v) (find k m)

  unfoldable pub put : K → V → Map K V → Map K V
  put k v [] = (k, v) ∷ []
  put k v ((j, w) ∷ m) =
      let later = put k v m in
      ite (key.dec j k) ((k, v) ∷ m) (before (key.lt k j) ((k, v) ∷ (j, w) ∷ m) ((j, w) ∷ later))

  unfoldable pub erase : K → Map K V → Map K V
  erase k [] = []
  erase k ((j, w) ∷ m) = let rest = erase k m in ite (key.dec j k) rest ((j, w) ∷ rest)

  pub find-put :
      (k j : K) (v : V) (m : Map K V) → find j (put k v m) ≡ ite (key.dec k j) (some v) (find j m)
  unfolding find put
  find-put k j v [] = refl
  find-put k j v ((i, w) ∷ m) = ground (arith, find-put k j v m)

  pub find-erase : (k j : K) (m : Map K V) → find j (erase k m) ≡ ite (key.dec k j) none (find j m)
  unfolding find erase
  find-erase k j [] = ground arith
  find-erase k j ((i, w) ∷ m) = ground (arith, find-erase k j m)

  pub erase-erase : (k : K) (m : Map K V) → erase k (erase k m) ≡ erase k m
  unfolding erase
  erase-erase k [] = refl
  erase-erase k ((i, w) ∷ m) = ground (arith, erase-erase k m)

  pub erase-put : (k : K) (v : V) (m : Map K V) → erase k (put k v m) ≡ erase k m
  unfolding erase put
  erase-put k v [] = ground arith
  erase-put k v ((i, w) ∷ m) = ground (arith, erase-put k v m)

  pub erase-nil : (k : K) → erase k [] ≡ []
  unfolding erase
  erase-nil k = refl

  pub erase-absent : (k : K) (m : Map K V) → find k m ≡ none → erase k m ≡ m
  unfolding find erase
  erase-absent k [] e = refl
  erase-absent k ((i, w) ∷ m) e = ground (arith, e, erase-absent k m)
