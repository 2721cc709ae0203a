-- ===== src/Mstore/SimpleAccess/Below.antt =====
-- Paths below a path, and how many of them are valid: the measure by which a deletion ends.
use lixs.Base.{
  ℕ, zero, suc, ◌+◌, ◌≤◌, ◌<◌, ◌≡◌, true, false, Bool, ◌&&◌, List, [], ◌∷◌, arith, inl, inr,
  if◌then◌else◌, Bool-cases, Option-cases,
}
use lixs.Base.Set
use lixs.Base.Text.{Text, length, text_key}
use lixs.Util.Below.{below, below-join, below_irrefl, below-of_join, below-IsName, below-split}
use lixs.Util.{basename, join}
use lixs.Util.Basename.{join-basename, parent-lt, basename-none}
use lixs.Mstore.Database.{Database, at, is_valid}
use lixs.Mstore.Database.Sound.{IsSound}

-- How many paths of a list pass a test.
abbrev count : (Text → Bool) → List Text → ℕ
count t [] = 0
count t (j ∷ js) = (if t j then 1 else 0) + count t js

count-le :
    (t u : Text → Bool) (js : List Text)
    → ((j : Text) → t j ≡ true → u j ≡ true)
    → count t js ≤ count u js
count-le t u [] h = omega arith
count-le t u (j ∷ js) h = ground (arith, count-le t u js h, h j)

count-lt :
    (t u : Text → Bool) (k : Text) (js : List Text)
    → ((j : Text) → t j ≡ true → u j ≡ true)
    → t k ≡ false
    → u k ≡ true
    → Set.has k js ≡ true
    → count t js < count u js
unfolding Set.has
count-lt t u k [] h off on m = absurd (ground arith)
count-lt t u k (j ∷ js) h off on m =
    ground (arith, count-lt t u k js h off on, count-le t u js h, h j)

count-le-length : (t : Text → Bool) (js : List Text) → count t js ≤ length js
count-le-length t [] = omega arith
count-le-length t (j ∷ js) = ground (arith, count-le-length t js)

-- The valid paths of `ks` below a path.
unfoldable pub weight : List Text → Text → Database → ℕ
weight ks path db = count (λ j. below path j && is_valid j db) ks

-- Every valid path is in the list.
abbrev pub Covers : List Text → Database → Type 0
Covers ks db = (j : Text) → is_valid j db ≡ true → Set.has j ks ≡ true

abbrev pub Shrinks : Database → Database → Type 0
Shrinks db db' = (j : Text) → is_valid j db' ≡ true → is_valid j db ≡ true

pub weight-le-length :
    (ks : List Text) (path : Text) (db : Database) → weight ks path db ≤ length ks
unfolding weight
weight-le-length ks path db = count-le-length _ ks

-- A child weighs less than its parent: it is valid, and not below itself.
pub weight-child :
    (ks : List Text) (path c : Text) (db : Database)
    → Covers ks db
    → is_valid (join path c) db ≡ true
    → weight ks (join path c) db < weight ks path db
unfolding weight
weight-child ks path c db covers v =
    count-lt _ _ (join path c) ks (λ j t. ground (arith, below-of_join path c j))
      (ground (arith, below_irrefl (join path c))) (ground (arith, below-join path c))
      (covers (join path c) v)

-- Taking a child away makes its parent lighter.
pub weight-lt :
    (ks : List Text) (path c : Text) (db db' : Database)
    → Covers ks db
    → Shrinks db db'
    → is_valid (join path c) db ≡ true
    → is_valid (join path c) db' ≡ false
    → weight ks path db' < weight ks path db
unfolding weight
weight-lt ks path c db db' covers shrinks v off =
    count-lt _ _ (join path c) ks (λ j t. ground (arith, shrinks j)) (ground arith)
      (ground (arith, below-join path c)) (covers (join path c) v)

-- Below a leaf nothing is valid.
below_leaf :
    (fuel : ℕ) (path : Text) (db : Database)
    → IsSound db
    → (at path db).e.children ≡ []
    → (j : Text) → length j < fuel
    → below path j ≡ true
    → is_valid j db ≡ true
    → ⊥
below_leaf zero path db s leaf j h b v = omega arith
below_leaf (suc fuel) path db s leaf j h b v = elim (Option-cases (basename j)) [
  | inl root ↦ ground (arith, below-IsName path j ((basename-none j).0 root))
  | inr ((q, n), up) ↦
      let (e, name) = join-basename j up in
      let (vq, listed) = s.parent j q n up v in
      elim (below-split path q n name (rw (← e) b)) [
        | inl here ↦ ground (arith, Set.has-nil n)
        | inr deeper ↦ below_leaf fuel path db s leaf q (omega (arith, parent-lt j up)) deeper vq
      ]
]

pub below_leaf-invalid :
    (path : Text) (db : Database)
    → IsSound db
    → (at path db).e.children ≡ []
    → (j : Text) → below path j ≡ true
    → is_valid j db ≡ false
below_leaf-invalid path db s leaf j b = elim (Bool-cases (is_valid j db)) [
  | inl v ↦ absurd (below_leaf (suc (length j)) path db s leaf j (omega arith) b v)
  | inr off ↦ off
]
