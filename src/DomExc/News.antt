-- ===== src/DomExc/News.antt =====
-- What there is to tell of the domains, and which of them survive.
use lixs.Base.{
  ℕ, zero, suc, ◌+◌, ◌≡◌, Bool, true, false, not, ◌&&◌, ◌||◌, none, [], ◌∷◌, ◌==◌, if◌then◌else◌,
}
use lixs.Base.Key.{nat_key}
use lixs.Base.Map
use lixs.Base.Map.{Map}
use lixs.Domain.{Domain}
use lixs.DomExc.{Info, info_error, info}
use lixs.Xenstore
use lixs.Xenstore.{Xenstore}

-- Domain `domid` is not there any more, or is dying.
abbrev pub is_gone : ℕ → Info → Bool
is_gone domid info_error = false
is_gone domid (info ret found is_dying shutdown crashed) =
    not (ret == 1) || not (domid == found) || is_dying

-- It is there and has stopped.
abbrev pub has_stopped : Info → Bool
has_stopped info_error = false
has_stopped (info ret found is_dying shutdown crashed) = shutdown || crashed

abbrev pub is_error : Info → Bool
is_error info_error = true
is_error (info ret found is_dying shutdown crashed) = false

module _ {E : Type 0} (getinfo : ℕ → Info) where
  -- A domain that is there, which is not active any more where it has stopped.
  abbrev pub seen : Domain E → Domain E
  seen d = record d { active = d.active && not (has_stopped (getinfo d.domid)) }

  unfoldable pub survivors : Map ℕ (Domain E) → Map ℕ (Domain E)
  survivors [] = []
  survivors ((k, d) ∷ m) =
      let rest = survivors m in
      if is_gone d.domid (getinfo d.domid) then rest else (k, seen d) ∷ rest

  -- Is it newly stopped?
  abbrev pub is_news : Domain E → Bool
  is_news d = not (is_gone d.domid (getinfo d.domid)) && (d.active && has_stopped (getinfo d.domid))

  -- How many domains are there, have stopped and were active.
  unfoldable pub news : Map ℕ (Domain E) → ℕ
  news [] = 0
  news ((k, d) ∷ m) = (if is_news d then 1 else 0) + news m

  -- The hypervisor knows about each of the domains, or that it is not there.
  unfoldable pub Answers : Map ℕ (Domain E) → Type 0
  Answers [] = Unit {0}
  Answers ((k, d) ∷ m) = (is_error (getinfo d.domid) ≡ false) × Answers m

-- Each domain is at its id, once.
unfoldable pub Keyed : {E : Type 0} → Map ℕ (Domain E) → Type 0
Keyed [] = Unit {0}
Keyed ((k, d) ∷ m) = (d.domid ≡ k) × (Map.find k m ≡ none) × Keyed m

unfoldable pub releases : ℕ → Xenstore → Xenstore
releases zero x = x
releases (suc n) x = releases n (Xenstore.domain_release x)

-- What the end of the domains that are gone does to the xenstore: for each, in the order of the map, its
-- destructor, and then the release.
module _ {E : Type 0} (ended : Domain E → Xenstore → Xenstore) (getinfo : ℕ → Info) where
  unfoldable pub ends : Map ℕ (Domain E) → Xenstore → Xenstore
  ends [] x = x
  ends ((k, d) ∷ m) x =
      if is_gone d.domid (getinfo d.domid)
      then ends m (Xenstore.domain_release (ended d x))
      else ends m x
