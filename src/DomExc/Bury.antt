-- ===== src/DomExc/Bury.antt =====
-- The loop over the dead, and the body of the loop over the domains by its cases.
use lixs.Base.{ℕ, ◌≡◌, ◌∙◌, refl, ap, false, ◌&&◌, none, List, [], ◌∷◌, ◌==◌, if◌then◌else◌, arith}
use lixs.Base.Key.{nat_key}
use lixs.Base.Map
use lixs.Base.Map.{Map}
use lixs.Base.Set
use lixs.Domain
use lixs.Domain.{Domain}
use lixs.DomainMgr
use lixs.DomExc.{Info, info_error, info, Scan, keep, dead, dying, look, bury, destroyed}
use lixs.Xenstore
use lixs.Xenstore.{Xenstore}
use lixs.XsProto.Ops.{World}
use lixs.DomExc.News.{is_gone, has_stopped, is_error}

module _ {E : Type 0} (ended : Domain E → Xenstore → Xenstore) where
  destroyed-past :
      (x k : ℕ) (d : Domain E) (m : Map ℕ (Domain E)) (xs : Xenstore)
      → (x == k) ≡ false
      → destroyed
          (DomainMgr.destroy ended x ((k, d) ∷ m) xs)
          (record { xs = xs; dmgr = (k, d) ∷ m })
        ≡ (let w = destroyed (DomainMgr.destroy ended x m xs) (record { xs = xs; dmgr = m }) in
            record { xs = w.xs; dmgr = (k, d) ∷ w.dmgr })
  unfolding DomainMgr.destroy Map.find Map.erase
  destroyed-past x k d m xs e = ground (arith, e)

  pub destroyed-here :
      (x k : ℕ) (d : Domain E) (m : Map ℕ (Domain E)) (xs : Xenstore)
      → x ≡ k
      → Map.find k m ≡ none
      → destroyed
          (DomainMgr.destroy ended x ((k, d) ∷ m) xs)
          (record { xs = xs; dmgr = (k, d) ∷ m })
        ≡ record { xs = Xenstore.domain_release (ended d xs); dmgr = m }
  unfolding DomainMgr.destroy Map.find Map.erase
  destroyed-here x k d m xs e fresh = ground (arith, e, Map.erase-absent k m fresh)

  pub bury-past :
      (ds : List ℕ) (k : ℕ) (d : Domain E) (m : Map ℕ (Domain E)) (xs : Xenstore)
      → Set.has k ds ≡ false
      → bury ended ds (record { xs = xs; dmgr = (k, d) ∷ m }) ≡ (
          let w = bury ended ds (record { xs = xs; dmgr = m }) in
          record { xs = w.xs; dmgr = (k, d) ∷ w.dmgr })
  unfolding bury Set.has
  bury-past [] k d m xs e = refl
  bury-past (x ∷ ds) k d m xs e =
      let w : World (Domain E) =
        destroyed (DomainMgr.destroy ended x m xs) (record { xs = xs; dmgr = m }) in
      ap (bury ended ds) (destroyed-past x k d m xs (ground (arith, e)))
      ∙ bury-past ds k d w.dmgr w.xs (ground (arith, e))

module _ {E : Type 0} where
  pub look-is :
      (i : Info) (k : ℕ) (d : Domain E) (later : Map ℕ (Domain E)) (rest : Scan E)
      → is_error i ≡ false
      → look i k d later rest ≡ (
          if is_gone d.domid i
          then dead k d rest
          else if d.active && has_stopped i
          then dying k d rest
          else keep k d rest)
  unfolding look Domain.get_domid Domain.is_active
  look-is info_error k d later rest e = absurd (ground (arith, e))
  look-is (info ret found is_dying shutdown crashed) k d later rest e = ground arith
