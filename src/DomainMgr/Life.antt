-- ===== src/DomainMgr/Life.antt =====
-- Which domains there are after each operation.
use lixs.Base.{ℕ, ◌≡◌, Bool, true, false, ◌||◌, Option, none, some, arith, ite, if◌then◌else◌}
use native.Mathlib.Decide.{ℕ_discrete}
use lixs.Base.Key.{nat_key}
use lixs.Base.Map
use lixs.Base.Map.{Map}
use lixs.Errno.{ok, err, enoent, eexist, ecanceled}
use lixs.DomainMgr.{create, destroy, exists, domain_dead}

module _ {D : Type 0} where
  abbrev pub was_made : Option D → Bool
  was_made none = false
  was_made (some dom) = true

  -- `create` reports `eexist` where the domain is there, `ecanceled` where its object cannot be made,
  -- and 0 otherwise. After it those domains exist that existed, and the new one if it was made.
  pub create-exists :
      (d j : ℕ) (made : Option D) (m : Map ℕ D)
      → ((create d made m).0
          ≡ (if exists d m then err eexist else if was_made made then ok tt else err ecanceled))
        × (exists j (create d made m).1
            ≡ (exists j m || ite (ℕ_discrete d j) (was_made made) false))
  unfolding create exists
  create-exists d j none m = (ground arith, ground arith)
  create-exists d j (some dom) m = (ground arith, ground (arith, Map.find-put d j dom m))

module _ {D X : Type 0} (ended : D → X → X) where
  -- `destroy` reports `enoent` where the domain is not there, and 0 otherwise. After it, as after a
  -- domain's own `domain_dead`, the domain does not exist, and every other exists if it did.
  pub destroy-exists :
      (d j : ℕ) (m : Map ℕ D) (x : X)
      → ((destroy ended d m x).0 ≡ (if exists d m then ok tt else err enoent))
        × (exists j (destroy ended d m x).1.0 ≡ ite (ℕ_discrete d j) false (exists j m))
        × (exists j (domain_dead ended d m x).0 ≡ ite (ℕ_discrete d j) false (exists j m))
  unfolding destroy exists domain_dead
  destroy-exists d j m x =
      (ground arith, ground (arith, Map.find-erase d j m), ground (arith, Map.find-erase d j m))
