-- ===== src/RingConn/Setup.antt =====
-- lib/lixs/ring_conn.cc and inc/lixs/ring_conn.hh: the constructors and destructors of
-- `ring_conn_base` and of `ring_conn`, whose base `MAPPER` is a parameter: a constructor that maps
-- the rings, and a destructor. What the calls of the event channel return is an argument.
use lixs.Base.{
  ℕ, Bool, false, not, ◌&&◌, ◌≡◌, refl, ap, ◌∙◌, Option, none, some, is_some, if◌then◌else◌,
  if_kept, arith,
}
use lixs.Conn.{Link, new_link}
use lixs.System.{
  System, Built, built, throws, ring_conn_error, open_evtchn, close_evtchn, watch, unwatch, Thrown,
  escapes, is_built,
}
use lixs.System.Lifetime.{lifetime, Clean, release-head}

-- What `xc_evtchn_open`, `xc_evtchn_bind_interdomain`, `xc_evtchn_unmask`, `xc_evtchn_notify` and
-- `xc_evtchn_fd` return.
pub record EvtchnCalls : Type 0 where
  pub handle : Option ℕ
  pub bind_interdomain : Option ℕ
  pub unmask : Bool
  pub notify : Bool
  pub fd : ℕ

pub record RingConnBase : Type 0 where
  pub link : Link
  pub fd : ℕ
  pub local_port : ℕ
  pub xce_handle : ℕ

abbrev bound : EvtchnCalls → ℕ → Option ℕ → System → Built RingConnBase × System
bound c xce_handle none s = (throws ring_conn_error, close_evtchn xce_handle s)
bound c xce_handle (some port) s =
    if not c.unmask
    then (throws ring_conn_error, close_evtchn xce_handle s)
    else if not c.notify
    then (throws ring_conn_error, close_evtchn xce_handle s)
    else (
      built (record { link = new_link; fd = c.fd; local_port = port; xce_handle = xce_handle }),
      watch c.fd s,
    )

abbrev opened : EvtchnCalls → Option ℕ → System → Built RingConnBase × System
opened c none s = (throws ring_conn_error, s)
opened c (some xce_handle) s = bound c xce_handle c.bind_interdomain (open_evtchn xce_handle s)

unfoldable pub ring_conn_base : EvtchnCalls → System → Built RingConnBase × System
ring_conn_base c s = opened c c.handle s

-- The destructor.
unfoldable pub close_base : RingConnBase → System → System
close_base r s = close_evtchn r.xce_handle (if r.link.alive then unwatch r.fd s else s)

module _ {M : Type 0} (unmap : M → System → System) where
  -- A base that throws ends the mapper that is there already.
  abbrev based : M → Built RingConnBase × System → Built (M × RingConnBase) × System
  based m (built r, s) = (built (m, r), s)
  based m (throws e, s) = (throws e, unmap m s)

  abbrev mapped : EvtchnCalls → Built M × System → Built (M × RingConnBase) × System
  mapped c (built m, s) = based m (ring_conn_base c s)
  mapped c (throws e, s) = (throws e, s)

  unfoldable pub ring_conn :
      (System → Built M × System) → EvtchnCalls → System → Built (M × RingConnBase) × System
  ring_conn map c s = mapped c (map s)

  unfoldable pub close : M × RingConnBase → System → System
  close (m, r) s = unmap m (close_base r s)

bound-lifetime :
    (c : EvtchnCalls) (h : ℕ) (port : Option ℕ) (s : System)
    → lifetime close_base (bound c h port (open_evtchn h s)) ≡ s
unfolding close_base lifetime
bound-lifetime c h none s = rw (release-head h s.evtchns) refl
bound-lifetime c h (some port) s =
    if_kept (λ r. lifetime close_base r ≡ s) (not c.unmask) _ _
      (λ _. rw (release-head h s.evtchns) refl)
      (λ _.
        if_kept (λ r. lifetime close_base r ≡ s) (not c.notify) _ _
          (λ _. rw (release-head h s.evtchns) refl)
          (λ _. rw (release-head h s.evtchns, release-head c.fd s.watched) refl))

opened-lifetime :
    (c : EvtchnCalls) (o : Option ℕ) (s : System) → lifetime close_base (opened c o s) ≡ s
unfolding lifetime
opened-lifetime c none s = refl
opened-lifetime c (some h) s = bound-lifetime c h c.bind_interdomain s

ring_conn_base-lifetime :
    (c : EvtchnCalls) (s : System) → lifetime close_base (ring_conn_base c s) ≡ s
unfolding ring_conn_base
ring_conn_base-lifetime c s = opened-lifetime c c.handle s

module _ {M : Type 0} (unmap : M → System → System) where
  based-lifetime :
      (m : M) (r : Built RingConnBase × System)
      → lifetime (close unmap) (based unmap m r) ≡ unmap m (lifetime close_base r)
  unfolding lifetime close
  based-lifetime m (built r, s) = refl
  based-lifetime m (throws e, s) = refl

  mapped-lifetime :
      (c : EvtchnCalls) (r : Built M × System)
      → lifetime (close unmap) (mapped unmap c r) ≡ lifetime unmap r
  unfolding lifetime
  mapped-lifetime c (built m, s) =
      based-lifetime m (ring_conn_base c s) ∙ ap (unmap m) (ring_conn_base-lifetime c s)
  mapped-lifetime c (throws e, s) = refl

  -- Where the mapper leaves nothing behind, neither does a connection: after a constructor that throws,
  -- and after the destructor of one that is made, the program holds of the system what it held before.
  pub ring_conn-lifetime :
      (map : System → Built M × System) (c : EvtchnCalls) (s : System)
      → Clean map unmap
      → lifetime (close unmap) (ring_conn unmap map c s) ≡ s
  unfolding ring_conn
  ring_conn-lifetime map c s mapper = mapped-lifetime c (map s) ∙ mapper.leaves_none s

-- Whether each call succeeds that `ring_conn_base` depends on.
unfoldable pub connects : EvtchnCalls → Bool
connects c = is_some c.handle && is_some c.bind_interdomain && c.unmask && c.notify

bound-escapes :
    (caught : Thrown → Bool) (c : EvtchnCalls) (h : ℕ) (port : Option ℕ) (s : System)
    → escapes caught (bound c h port s).0
      ≡ (if is_some port && c.unmask && c.notify then false else not (caught ring_conn_error))
unfolding escapes
bound-escapes caught c h none s = refl
bound-escapes caught c h (some port) s = ground arith

opened-escapes :
    (caught : Thrown → Bool) (c : EvtchnCalls) (o : Option ℕ) (s : System)
    → escapes caught (opened c o s).0 ≡ (
        if is_some o && is_some c.bind_interdomain && c.unmask && c.notify
        then false
        else not (caught ring_conn_error))
unfolding escapes
opened-escapes caught c none s = refl
opened-escapes caught c (some h) s = bound-escapes caught c h c.bind_interdomain (open_evtchn h s)

ring_conn_base-escapes :
    (caught : Thrown → Bool) (c : EvtchnCalls) (s : System)
    → escapes caught (ring_conn_base c s).0
      ≡ (if connects c then false else not (caught ring_conn_error))
unfolding ring_conn_base connects
ring_conn_base-escapes caught c s = opened-escapes caught c c.handle s

module _ {M : Type 0} (unmap : M → System → System) (caught : Thrown → Bool) where
  based-escapes :
      (m : M) (r : Built RingConnBase × System)
      → escapes caught (based unmap m r).0 ≡ escapes caught r.0
  unfolding escapes
  based-escapes m (built r, s) = refl
  based-escapes m (throws e, s) = refl

  mapped-escapes :
      (c : EvtchnCalls) (r : Built M × System)
      → escapes caught (mapped unmap c r).0 ≡ (
          if is_built r.0
          then (if connects c then false else not (caught ring_conn_error))
          else escapes caught r.0)
  unfolding escapes
  mapped-escapes c (built m, s) =
      based-escapes m (ring_conn_base c s) ∙ ring_conn_base-escapes caught c s
  mapped-escapes c (throws e, s) = refl

  -- When an exception of the constructor of a connection goes past its handlers: where it is the
  -- mapper's and they do not catch that one, or the mapper is there, a call of the event channel fails
  -- and they do not catch `ring_conn_error`.
  pub ring_conn-escapes :
      (map : System → Built M × System) (c : EvtchnCalls) (s : System)
      → escapes caught (ring_conn unmap map c s).0 ≡ (
          if is_built (map s).0
          then (if connects c then false else not (caught ring_conn_error))
          else escapes caught (map s).0)
  unfolding ring_conn
  ring_conn-escapes map c s = mapped-escapes c (map s)
