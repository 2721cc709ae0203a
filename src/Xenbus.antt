-- ===== src/Xenbus.antt =====
-- inc/lixs/xenbus.hh and lib/lixs/xenbus.cc: the client on the bus of the kernel, with the mapper of
-- its page. What `open`, `mmap` and the reading of the port from a file give is an argument.
use lixs.Base.{ℕ, Bool, true, false, ◌≡◌, refl, Option, none, some, is_some, not, ◌&&◌, arith}
use lixs.RingConn.Setup
use lixs.RingConn.Setup.{EvtchnCalls, RingConnBase, connects}
use lixs.System.{
  escapes, is_built, System, Thrown, Built, built, throws, xenbus_error, open_fd, close_fd,
  map_page, unmap_page,
}
use lixs.System.Lifetime.{lifetime, Clean, release-head, is_built-escapes}

-- A page at the address `interface`.
pub record XenbusMapper : Type 0 where
  pub interface : ℕ

abbrev mapped : ℕ → Option ℕ → System → Built XenbusMapper × System
mapped fd none s = (throws xenbus_error, close_fd fd s)
mapped fd (some ptr) s = (built (record { interface = ptr }), close_fd fd (map_page ptr s))

unfoldable pub xenbus_mapper : Option ℕ → Option ℕ → System → Built XenbusMapper × System
xenbus_mapper none ptr s = (throws xenbus_error, s)
xenbus_mapper (some fd) ptr s = mapped fd ptr (open_fd fd s)

unfoldable pub unmap : XenbusMapper → System → System
unmap m s = unmap_page m.interface s

-- `xenbus_evtchn`; `none` is a file that cannot be read.
unfoldable pub xenbus_evtchn : Option ℕ → Built ℕ
xenbus_evtchn none = throws xenbus_error
xenbus_evtchn (some port) = built port

xenbus_mapper-lifetime :
    (fd ptr : Option ℕ) (s : System) → lifetime unmap (xenbus_mapper fd ptr s) ≡ s
unfolding xenbus_mapper unmap lifetime
xenbus_mapper-lifetime none ptr s = refl
xenbus_mapper-lifetime (some fd) none s = rw (release-head fd s.fds) refl
xenbus_mapper-lifetime (some fd) (some ptr) s =
    rw (release-head fd s.fds, release-head ptr s.pages) refl

pub xenbus_mapper-Clean : (fd ptr : Option ℕ) → Clean (xenbus_mapper fd ptr) unmap
xenbus_mapper-Clean fd ptr = record { leaves_none = xenbus_mapper-lifetime fd ptr }

-- What the system answers to the constructor.
pub record XenbusCalls : Type 0 where
  pub port : Option ℕ
  pub fd : Option ℕ
  pub ptr : Option ℕ
  pub evtchn : EvtchnCalls

-- The constructor: the port is read before the connection is made.
abbrev on_port : XenbusCalls → Built ℕ → System → Built (XenbusMapper × RingConnBase) × System
on_port c (throws e) s = (throws e, s)
on_port c (built port) s = Setup.ring_conn unmap (xenbus_mapper c.fd c.ptr) c.evtchn s

unfoldable pub xenbus : XenbusCalls → System → Built (XenbusMapper × RingConnBase) × System
xenbus c s = on_port c (xenbus_evtchn c.port) s

unfoldable pub close : XenbusMapper × RingConnBase → System → System
close x s = Setup.close unmap x s

on_port-lifetime : (c : XenbusCalls) (p : Built ℕ) (s : System) → lifetime close (on_port c p s) ≡ s
unfolding close lifetime
on_port-lifetime c (throws e) s = refl
on_port-lifetime c (built port) s =
    Setup.ring_conn-lifetime unmap (xenbus_mapper c.fd c.ptr) c.evtchn s
      (xenbus_mapper-Clean c.fd c.ptr)

pub xenbus-Clean : (c : XenbusCalls) → Clean (xenbus c) close
unfolding xenbus
xenbus-Clean c = record { leaves_none = λ s. on_port-lifetime c (xenbus_evtchn c.port) s }

-- The handler of main.
abbrev pub is_xenbus_error : Thrown → Bool
is_xenbus_error xenbus_error = true
is_xenbus_error e = false

abbrev pub is_mapped : XenbusCalls → Bool
is_mapped c = is_some c.port && (is_some c.fd && is_some c.ptr)

mapped-up :
    (fd : ℕ) (ptr : Option ℕ) (s : System)
    → (is_built (mapped fd ptr s).0 ≡ is_some ptr)
      × (escapes is_xenbus_error (mapped fd ptr s).0 ≡ false)
unfolding escapes
mapped-up fd none s = (refl, refl)
mapped-up fd (some ptr) s = (refl, refl)

xenbus_mapper-up :
    (fd ptr : Option ℕ) (s : System)
    → (is_built (xenbus_mapper fd ptr s).0 ≡ (is_some fd && is_some ptr))
      × (escapes is_xenbus_error (xenbus_mapper fd ptr s).0 ≡ false)
unfolding xenbus_mapper escapes
xenbus_mapper-up none ptr s = (refl, refl)
xenbus_mapper-up (some fd) ptr s = mapped-up fd ptr (open_fd fd s)

on_port-up :
    (c : XenbusCalls) (p : Option ℕ) (s : System)
    → (is_built (on_port c (xenbus_evtchn p) s).0
        ≡ (is_some p && (is_some c.fd && is_some c.ptr) && connects c.evtchn))
      × (escapes is_xenbus_error (on_port c (xenbus_evtchn p) s).0
          ≡ (is_some p && (is_some c.fd && is_some c.ptr) && not (connects c.evtchn)))
unfolding xenbus_evtchn escapes
on_port-up c none s = (refl, refl)
on_port-up c (some port) s =
    let map = xenbus_mapper c.fd c.ptr in
    let (up, inside) = xenbus_mapper-up c.fd c.ptr s in
    (
      ground (
        arith,
        is_built-escapes (Setup.ring_conn unmap map c.evtchn s).0,
        is_built-escapes (map s).0,
        Setup.ring_conn-escapes unmap (λ e. false) map c.evtchn s,
        up,
      ),
      ground (arith, Setup.ring_conn-escapes unmap is_xenbus_error map c.evtchn s, up, inside),
    )

-- When the constructor makes its object, and when an exception goes past the handler of `main`, which
-- catches `xenbus_error` alone.
pub xenbus-up :
    (c : XenbusCalls) (s : System)
    → (is_built (xenbus c s).0 ≡ (is_mapped c && connects c.evtchn))
      × (escapes is_xenbus_error (xenbus c s).0 ≡ (is_mapped c && not (connects c.evtchn)))
unfolding xenbus
xenbus-up c s = on_port-up c c.port s
