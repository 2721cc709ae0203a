-- ===== src/DomExc.antt =====
-- inc/lixs/os_linux/dom_exc.hh and lib/lixs/os_linux/dom_exc.cc: the handler of the event that a
-- domain has stopped. What the hypervisor tells of a domain, and what the calls of the event channel
-- return, is an argument, and so is `ended`, what the destructor of a domain does to the xenstore. `E`
-- are the callbacks of the event manager.
pub mod Setup
pub mod News
pub mod Bury
pub mod Survivors
pub mod Settles
use lixs.Base.{
  ℕ, Bool, true, false, not, ◌&&◌, ◌||◌, Option, none, some, List, [], ◌∷◌, ◌==◌, if◌then◌else◌,
}
use lixs.Base.Map.{Map}
use lixs.Conn.{Action, io_rem}
use lixs.Domain
use lixs.Domain.{Domain}
use lixs.DomainMgr
use lixs.Errno.{Status, ok, err}
use lixs.Xenstore
use lixs.Xenstore.{Xenstore}
use lixs.XsProto.Ops.{World}

-- What `xc_domain_getinfo` returns: -1, or how many domains it has written about, and what it has
-- written of the first.
pub data Info : Type 0 where
  info_error : Info
  info : ℕ → ℕ → Bool → Bool → Bool → Info

-- `alive`, and the calls of the multiplexer, the last one first.
pub record DomExc : Type 0 where
  pub alive : Bool
  pub actions : List Action

-- What the loop over the domains leaves: the domains, the two lists, and whether it was left early.
pub record Scan (E : Type 0) : Type 0 where
  pub domains : Map ℕ (Domain E)
  pub dead_list : List ℕ
  pub dying_list : List ℕ
  pub failed : Bool

-- `out_err`
abbrev pub out_err : DomExc → DomExc
out_err x = record { alive = false; actions = io_rem ∷ x.actions }

-- `pending` is the port of `xc_evtchn_pending`, and `unmask` whether `xc_evtchn_unmask` succeeds.
abbrev pub acknowledged : Option ℕ → Bool → DomExc → DomExc
acknowledged none unmask x = out_err x
acknowledged (some port) unmask x = if unmask then x else out_err x

module _ {E : Type 0} where
  abbrev pub keep : ℕ → Domain E → Scan E → Scan E
  keep key dom s = record s { domains = (key, dom) ∷ s.domains }

  abbrev pub dead : ℕ → Domain E → Scan E → Scan E
  dead key dom s = record (keep key dom s) { dead_list = Domain.get_domid dom ∷ s.dead_list }

  abbrev pub dying : ℕ → Domain E → Scan E → Scan E
  dying key dom s = record (keep key (Domain.set_inactive dom) s) {
    dying_list = Domain.get_domid dom ∷ s.dying_list;
  }

  -- The body of the loop, given what the rest of the loop does, unless it is left.
  unfoldable pub look : Info → ℕ → Domain E → Map ℕ (Domain E) → Scan E → Scan E
  look info_error key dom later rest = record {
    domains = (key, dom) ∷ later;
    dead_list = [];
    dying_list = [];
    failed = true;
  }
  look (info ret domid is_dying shutdown crashed) key dom later rest =
      if not (ret == 1) || not (Domain.get_domid dom == domid)
      then dead key dom rest
      else if is_dying
      then dead key dom rest
      else if Domain.is_active dom && (shutdown || crashed)
      then dying key dom rest
      else keep key dom rest

  unfoldable pub scan : (ℕ → Info) → Map ℕ (Domain E) → Scan E
  scan getinfo [] = record { domains = []; dead_list = []; dying_list = []; failed = false }
  scan getinfo ((key, dom) ∷ later) =
      look (getinfo (Domain.get_domid dom)) key dom later (scan getinfo later)

  abbrev pub destroyed :
      Status × (Map ℕ (Domain E) × Xenstore) → World (Domain E) → World (Domain E)
  destroyed (ok u, (dmgr, xs)) w = record { xs = Xenstore.domain_release xs; dmgr = dmgr }
  destroyed (err e, (dmgr, xs)) w = record { xs = xs; dmgr = dmgr }

  -- The loop over `dying_list`.
  unfoldable pub announce : List ℕ → World (Domain E) → World (Domain E)
  announce [] w = w
  announce (d ∷ ds) w = announce ds (record w { xs = Xenstore.domain_release w.xs })

module _ {E : Type 0} (ended : Domain E → Xenstore → Xenstore) where
  -- The loop over `dead_list`.
  unfoldable pub bury : List ℕ → World (Domain E) → World (Domain E)
  bury [] w = w
  bury (d ∷ ds) w = bury ds (destroyed (DomainMgr.destroy ended d w.dmgr w.xs) w)

  unfoldable pub callback :
      (ℕ → Info)
      → Option ℕ
      → Bool
      → Bool
      → Bool
      → Bool
      → DomExc
      → World (Domain E)
      → DomExc × World (Domain E)
  callback getinfo pending unmask read write error x w =
      let s = scan getinfo w.dmgr in
      let seen = record w { dmgr = s.domains } in
      if not x.alive
      then (x, w)
      else if error
      then (out_err x, w)
      else if s.failed
      then (out_err x, seen)
      else (acknowledged pending unmask x, announce s.dying_list (bury s.dead_list seen))
