-- ===== src/DomExc/Setup.antt =====
-- lib/lixs/os_linux/dom_exc.cc: the constructor and the destructor.
use lixs.Base.{
  ℕ, Bool, true, false, ◌≡◌, refl, ap, not, Option, none, some, is_some, ◌&&◌, List, [], ◌∷◌, ◌++◌,
  if◌then◌else◌,
}
use lixs.DomExc.{DomExc}
use lixs.System.{
  System, Built, built, throws, dom_exc_error, open_evtchn, close_evtchn, open_xc, close_xc, watch,
  unwatch, is_built, escapes, Thrown,
}
use lixs.System.Lifetime.{lifetime, release-head}

-- What `xc_interface_open`, `xc_evtchn_open`, `xc_evtchn_bind_virq` and `xc_evtchn_fd` return.
pub record DomExcCalls : Type 0 where
  pub xc_handle : Option ℕ
  pub xce_handle : Option ℕ
  pub virq_port : Option ℕ
  pub fd : ℕ

pub record Handles : Type 0 where
  pub state : DomExc
  pub fd : ℕ
  pub xc_handle : ℕ
  pub xce_handle : ℕ
  pub virq_port : ℕ

abbrev with_port : DomExcCalls → ℕ → ℕ → Option ℕ → System → Built Handles × System
with_port c xc xce none s = (throws dom_exc_error, close_evtchn xce s)
with_port c xc xce (some port) s = (
  built (record {
    state = record { alive = true; actions = [] };
    fd = c.fd;
    xc_handle = xc;
    xce_handle = xce;
    virq_port = port;
  }),
  watch c.fd s,
)

abbrev with_evtchn : DomExcCalls → ℕ → Option ℕ → System → Built Handles × System
with_evtchn c xc none s = (throws dom_exc_error, s)
with_evtchn c xc (some xce) s = with_port c xc xce c.virq_port (open_evtchn xce s)

abbrev with_xc : DomExcCalls → Option ℕ → System → Built Handles × System
with_xc c none s = (throws dom_exc_error, s)
with_xc c (some xc) s = with_evtchn c xc c.xce_handle (open_xc xc s)

unfoldable pub dom_exc : DomExcCalls → System → Built Handles × System
dom_exc c s = with_xc c c.xc_handle s

-- The destructor.
unfoldable pub close : Handles → System → System
close h s =
    close_xc h.xc_handle (close_evtchn h.xce_handle (if h.state.alive then unwatch h.fd s else s))

-- The handle that stays open where a later call fails.
abbrev pub leaked : Option ℕ → Bool → List ℕ
leaked none later = []
leaked (some xc) later = if later then [] else xc ∷ []

with_port-lifetime :
    (c : DomExcCalls) (xc xce : ℕ) (port : Option ℕ) (s : System)
    → (lifetime close (with_port c xc xce port (open_evtchn xce (open_xc xc s)))
        ≡ record s { xcs = leaked (some xc) (is_some port) ++ s.xcs })
      × (is_built (with_port c xc xce port s).0 ≡ is_some port)
unfolding lifetime close
with_port-lifetime c xc xce none s = (rw (release-head xce s.evtchns) refl, refl)
with_port-lifetime c xc xce (some port) s =
    (rw (release-head c.fd s.watched, release-head xce s.evtchns, release-head xc s.xcs) refl, refl)

with_evtchn-lifetime :
    (c : DomExcCalls) (xc : ℕ) (o : Option ℕ) (s : System)
    → (lifetime close (with_evtchn c xc o (open_xc xc s))
        ≡ record s { xcs = leaked (some xc) (is_some o && is_some c.virq_port) ++ s.xcs })
      × (is_built (with_evtchn c xc o s).0 ≡ (is_some o && is_some c.virq_port))
unfolding lifetime
with_evtchn-lifetime c xc none s = (refl, refl)
with_evtchn-lifetime c xc (some xce) s = (
  (with_port-lifetime c xc xce c.virq_port s).0,
  (with_port-lifetime c xc xce c.virq_port (open_evtchn xce s)).1,
)

with_xc-lifetime :
    (c : DomExcCalls) (o : Option ℕ) (s : System)
    → (lifetime close (with_xc c o s)
        ≡ record s { xcs = leaked o (is_some c.xce_handle && is_some c.virq_port) ++ s.xcs })
      × (is_built (with_xc c o s).0 ≡ (is_some o && (is_some c.xce_handle && is_some c.virq_port)))
unfolding lifetime
with_xc-lifetime c none s = (refl, refl)
with_xc-lifetime c (some xc) s = (
  (with_evtchn-lifetime c xc c.xce_handle s).0,
  (with_evtchn-lifetime c xc c.xce_handle (open_xc xc s)).1,
)

-- After the destructor of a handler that is made, the program holds of the system what it held before.
-- The constructor throws exactly where one of its three calls fails; what it leaves behind then is the
-- handle of `xc_interface_open`, where it is one of the other two calls that fails.
pub dom_exc-leaked :
    (c : DomExcCalls) (s : System)
    → (lifetime close (dom_exc c s) ≡ record s {
      xcs = leaked c.xc_handle (is_some c.xce_handle && is_some c.virq_port) ++ s.xcs;
    })
      × (is_built (dom_exc c s).0
          ≡ (is_some c.xc_handle && (is_some c.xce_handle && is_some c.virq_port)))
unfolding dom_exc
dom_exc-leaked c s = with_xc-lifetime c c.xc_handle s

with_port-escapes :
    (caught : Thrown → Bool) (c : DomExcCalls) (xc xce : ℕ) (port : Option ℕ) (s : System)
    → caught dom_exc_error ≡ true
    → escapes caught (with_port c xc xce port s).0 ≡ false
unfolding escapes
with_port-escapes caught c xc xce none s e = ap not e
with_port-escapes caught c xc xce (some port) s e = refl

with_evtchn-escapes :
    (caught : Thrown → Bool) (c : DomExcCalls) (xc : ℕ) (o : Option ℕ) (s : System)
    → caught dom_exc_error ≡ true
    → escapes caught (with_evtchn c xc o s).0 ≡ false
unfolding escapes
with_evtchn-escapes caught c xc none s e = ap not e
with_evtchn-escapes caught c xc (some xce) s e =
    with_port-escapes caught c xc xce c.virq_port (open_evtchn xce s) e

with_xc-escapes :
    (caught : Thrown → Bool) (c : DomExcCalls) (o : Option ℕ) (s : System)
    → caught dom_exc_error ≡ true
    → escapes caught (with_xc c o s).0 ≡ false
unfolding escapes
with_xc-escapes caught c none s e = ap not e
with_xc-escapes caught c (some xc) s e =
    with_evtchn-escapes caught c xc c.xce_handle (open_xc xc s) e

-- The constructor throws nothing but `dom_exc_error`.
pub dom_exc-escapes :
    (caught : Thrown → Bool) (c : DomExcCalls) (s : System)
    → caught dom_exc_error ≡ true
    → escapes caught (dom_exc c s).0 ≡ false
unfolding dom_exc
dom_exc-escapes caught c s e = with_xc-escapes caught c c.xc_handle s e
