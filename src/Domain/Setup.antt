-- ===== src/Domain/Setup.antt =====
-- lib/lixs/domain.cc: the mapper of a domain's rings, and the constructor and the destructor of a
-- domain. `xc_gnttab_open` and `xc_gnttab_map_grant_ref` give the handle and the page.
use lixs.Base.{if◌then◌else◌, ℕ, Bool, true, false, ◌≡◌, ◌∙◌, refl, Option, none, some, arith}
use lixs.Domain
use lixs.Domain.{Domain}
use lixs.RingConn.Setup
use lixs.RingConn.Setup.{connects, EvtchnCalls, RingConnBase}
use lixs.System.{
  System, Thrown, Built, escapes, is_built, built, throws, ring_conn_error,
  foreign_ring_mapper_error, open_gnttab, close_gnttab, map_page, unmap_page,
}
use lixs.System.Lifetime.{lifetime, Clean, release-head}

pub record ForeignRingMapper : Type 0 where
  pub xcg_handle : ℕ
  pub interface : ℕ

abbrev granted : ℕ → Option ℕ → System → Built ForeignRingMapper × System
granted h none s = (throws foreign_ring_mapper_error, close_gnttab h s)
granted h (some page) s = (built (record { xcg_handle = h; interface = page }), map_page page s)

unfoldable pub foreign_ring_mapper : Option ℕ → Option ℕ → System → Built ForeignRingMapper × System
foreign_ring_mapper none page s = (throws foreign_ring_mapper_error, s)
foreign_ring_mapper (some h) page s = granted h page (open_gnttab h s)

unfoldable pub unmap : ForeignRingMapper → System → System
unmap m s = close_gnttab m.xcg_handle (unmap_page m.interface s)

foreign_ring_mapper-lifetime :
    (h page : Option ℕ) (s : System) → lifetime unmap (foreign_ring_mapper h page s) ≡ s
unfolding foreign_ring_mapper unmap lifetime
foreign_ring_mapper-lifetime none page s = refl
foreign_ring_mapper-lifetime (some h) none s = rw (release-head h s.gnttabs) refl
foreign_ring_mapper-lifetime (some h) (some page) s =
    rw (release-head h s.gnttabs, release-head page s.pages) refl

pub foreign_ring_mapper-Clean : (h page : Option ℕ) → Clean (foreign_ring_mapper h page) unmap
foreign_ring_mapper-Clean h page = record { leaves_none = foreign_ring_mapper-lifetime h page }

-- What `domain_mgr` catches where it makes a domain.
abbrev pub caught : Thrown → Bool
caught ring_conn_error = true
caught foreign_ring_mapper_error = true
caught e = false

granted-escapes :
    (h : ℕ) (page : Option ℕ) (s : System) → escapes caught (granted h page s).0 ≡ false
unfolding escapes
granted-escapes h none s = refl
granted-escapes h (some page) s = refl

foreign_ring_mapper-escapes :
    (h page : Option ℕ) (s : System) → escapes caught (foreign_ring_mapper h page s).0 ≡ false
unfolding foreign_ring_mapper escapes
foreign_ring_mapper-escapes none page s = refl
foreign_ring_mapper-escapes (some h) page s = granted-escapes h page (open_gnttab h s)

either_false :
    (a b : Bool) {c : Bool} → c ≡ false → (if a then (if b then false else false) else c) ≡ false
either_false a b e = ground (arith, e)

-- What the system answers to the constructor.
pub record DomainCalls : Type 0 where
  pub xcg_handle : Option ℕ
  pub interface : Option ℕ
  pub evtchn : EvtchnCalls

abbrev made :
    {E : Type 0}
    → E
    → ℕ
    → Built (ForeignRingMapper × RingConnBase) × System
    → Built (Domain E × (ForeignRingMapper × RingConnBase)) × System
made dead_cb domid (built conn, s) = (built (Domain.domain dead_cb domid, conn), s)
made dead_cb domid (throws e, s) = (throws e, s)

module _ {E : Type 0} where
  unfoldable pub domain :
      E → ℕ → DomainCalls → System → Built (Domain E × (ForeignRingMapper × RingConnBase)) × System
  domain dead_cb domid c s =
      made dead_cb domid
        (Setup.ring_conn unmap (foreign_ring_mapper c.xcg_handle c.interface) c.evtchn s)

  unfoldable pub close : Domain E × (ForeignRingMapper × RingConnBase) → System → System
  close (d, conn) s = Setup.close unmap conn s

  made-lifetime :
      (cb : E) (d : ℕ) (r : Built (ForeignRingMapper × RingConnBase) × System)
      → lifetime close (made cb d r) ≡ lifetime (Setup.close unmap) r
  unfolding close lifetime
  made-lifetime cb d (built conn, s) = refl
  made-lifetime cb d (throws e, s) = refl

  lifetime-domain :
      (dead_cb : E) (domid : ℕ) (c : DomainCalls) (s : System)
      → lifetime close (domain dead_cb domid c s) ≡ s
  unfolding domain
  lifetime-domain cb d c s =
      made-lifetime cb d
        (Setup.ring_conn unmap (foreign_ring_mapper c.xcg_handle c.interface) c.evtchn s)
      ∙ Setup.ring_conn-lifetime unmap (foreign_ring_mapper c.xcg_handle c.interface) c.evtchn s
          (foreign_ring_mapper-Clean c.xcg_handle c.interface)

  made-escapes :
      (cb : E) (d : ℕ) (r : Built (ForeignRingMapper × RingConnBase) × System)
      → escapes caught (made cb d r).0 ≡ escapes caught r.0
  unfolding escapes
  made-escapes cb d (built conn, s) = refl
  made-escapes cb d (throws e, s) = refl

  domain-escapes :
      (dead_cb : E) (domid : ℕ) (c : DomainCalls) (s : System)
      → escapes caught (domain dead_cb domid c s).0 ≡ false
  unfolding domain
  domain-escapes cb d c s =
      let map = foreign_ring_mapper c.xcg_handle c.interface in
      made-escapes cb d (Setup.ring_conn unmap map c.evtchn s)
      ∙ Setup.ring_conn-escapes unmap caught map c.evtchn s
      ∙ either_false (is_built (map s).0) (connects c.evtchn)
          (foreign_ring_mapper-escapes c.xcg_handle c.interface s)

  -- Whatever the system's calls answer: after a constructor of a domain that throws, and after the
  -- destructor of one that is made, the program holds of the system what it held before; and no
  -- exception goes past the two handlers of `domain_mgr`.
  pub domain-lifetime :
      (dead_cb : E) (domid : ℕ) (c : DomainCalls) (s : System)
      → (lifetime close (domain dead_cb domid c s) ≡ s)
        × (escapes caught (domain dead_cb domid c s).0 ≡ false)
  domain-lifetime cb d c s = (lifetime-domain cb d c s, domain-escapes cb d c s)
