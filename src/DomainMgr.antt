-- ===== src/DomainMgr.antt =====
-- lib/lixs/domain_mgr.cc: the domains that are served, by their ids. A domain object stands for its
-- connection and is of a type that is a parameter; `made` is the new object, or `none` where its
-- constructor throws because the ring cannot be mapped. `ended` is what its destructor does to what the
-- destructor of a domain reaches, of a type `X`. The iterators of the map are left out.
pub mod Life
use lixs.Base.{ℕ, Bool, true, false, Option, none, some, [], ◌∷◌}
use lixs.Base.Key.{nat_key}
use lixs.Base.Map
use lixs.Base.Map.{Map}
use lixs.Errno.{Status, ok, err, enoent, eexist, ecanceled}

module _ {D : Type 0} where
  unfoldable pub create : ℕ → Option D → Map ℕ D → Status × Map ℕ D
  create domid made domains = elim (Map.find domid domains) [
    | none ↦ elim made [
      | none ↦ (err ecanceled, domains)
      | some dom ↦ (ok tt, Map.put domid dom domains)
    ]
    | some dom ↦ (err eexist, domains)
  ]

  unfoldable pub exists : ℕ → Map ℕ D → Bool
  exists domid domains = elim (Map.find domid domains) [ none ↦ false | some dom ↦ true ]

module _ {D X : Type 0} (ended : D → X → X) where
  -- `delete it->second` runs the destructor of the domain.
  unfoldable pub destroy : ℕ → Map ℕ D → X → Status × (Map ℕ D × X)
  destroy domid domains x = elim (Map.find domid domains) [
    | none ↦ (err enoent, (domains, x))
    | some dom ↦ (ok tt, (Map.erase domid domains, ended dom x))
  ]

  -- The callback that a domain calls when its connection is dead.
  unfoldable pub domain_dead : ℕ → Map ℕ D → X → Map ℕ D × X
  domain_dead domid domains x = elim (Map.find domid domains) [
    | none ↦ (domains, x)
    | some dom ↦ (Map.erase domid domains, ended dom x)
  ]
