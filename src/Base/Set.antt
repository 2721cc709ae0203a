-- ===== src/Base/Set.antt =====
-- `std::set` as a list kept in the order of its keys, so that iteration is the recursion on it.
use mathlib.Core.Path.{◌≡◌, refl}
use mathlib.Core.Logic.{ite}
use mathlib.Core.Bool.{Bool, true, false}
use mathlib.Core.List.{List, [], ◌∷◌}
use native.Mathlib.Omega.{arith}
use lixs.Base.Key.{Key}

abbrev pub Set : Type 0 → Type 0
Set K = List K

module _ {K : Type 0} where
  abbrev pub is_empty : Set K → Bool
  is_empty [] = true
  is_empty (x ∷ s) = false

module _ {K : Type 0} ⦃key : Key K⦄ where
  abbrev before : Bool → Set K → Set K → Set K
  before true here later = here
  before false here later = later

  unfoldable pub has : K → Set K → Bool
  has k [] = false
  has k (j ∷ s) = ite (key.dec j k) true (has k s)

  unfoldable pub insert : K → Set K → Set K
  insert k [] = k ∷ []
  insert k (j ∷ s) = ite (key.dec j k) (j ∷ s) (before (key.lt k j) (k ∷ j ∷ s) (j ∷ insert k s))

  unfoldable pub erase : K → Set K → Set K
  erase k [] = []
  erase k (j ∷ s) = let rest = erase k s in ite (key.dec j k) rest (j ∷ rest)

  -- `insert` of each element of the first set, in its order.
  unfoldable pub insert_all : Set K → Set K → Set K
  insert_all [] s = s
  insert_all (k ∷ ks) s = insert_all ks (insert k s)

  unfoldable pub erase_all : Set K → Set K → Set K
  erase_all [] s = s
  erase_all (k ∷ ks) s = erase_all ks (erase k s)

  pub has-nil : (k : K) → has k [] ≡ false
  unfolding has
  has-nil k = refl

  pub has-head : (k : K) (s : Set K) → has k (k ∷ s) ≡ true
  unfolding has
  has-head k s = ground arith

  pub has-insert : (k j : K) (s : Set K) → has j (insert k s) ≡ ite (key.dec k j) true (has j s)
  unfolding has insert
  has-insert k j [] = ground arith
  has-insert k j (i ∷ s) = ground (arith, has-insert k j s)

  pub has-erase : (k j : K) (s : Set K) → has j (erase k s) ≡ ite (key.dec k j) false (has j s)
  unfolding has erase
  has-erase k j [] = ground arith
  has-erase k j (i ∷ s) = ground (arith, has-erase k j s)

  pub has-insert_all :
      (ks : Set K) (j : K) (s : Set K)
      → has j (insert_all ks s) ≡ elim (has j ks) [ true ↦ true | false ↦ has j s ]
  unfolding has insert_all
  has-insert_all [] j s = refl
  has-insert_all (k ∷ ks) j s = ground (arith, has-insert_all ks j (insert k s), has-insert k j s)

  pub has-erase_all :
      (ks : Set K) (j : K) (s : Set K)
      → has j (erase_all ks s) ≡ elim (has j ks) [ true ↦ false | false ↦ has j s ]
  unfolding has erase_all
  has-erase_all [] j s = refl
  has-erase_all (k ∷ ks) j s = ground (arith, has-erase_all ks j (erase k s), has-erase k j s)
