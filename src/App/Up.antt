-- ===== src/App/Up.antt =====
-- Which parts of the program come up, by what the system's calls return.
use lixs.Base.{Bool, true, false, not, ◌&&◌, is_some, if◌then◌else◌}
use lixs.App.{Calls, Outcome, returns_0, uncaught}
use lixs.LixsConf.{LixsConf}
use lixs.RingConn.Setup.{connects}
use lixs.UnixSockServer.Lifetime.{usable}
use lixs.Xenbus.{is_mapped}

abbrev pub is_0 : Outcome → Bool
is_0 returns_0 = true
is_0 o = false

abbrev pub is_uncaught : Outcome → Bool
is_uncaught (uncaught e) = true
is_uncaught o = false

-- Which parts come up, of those that the configuration asks for.
abbrev pub virq_up : LixsConf → Calls → Bool
virq_up conf c =
    if conf.virq_dom_exc
    then is_some c.virq.xc_handle && (is_some c.virq.xce_handle && is_some c.virq.virq_port)
    else true

abbrev pub bus_up : LixsConf → Calls → Bool
bus_up conf c = if conf.xenbus then is_mapped c.bus && connects c.bus.evtchn else true

abbrev pub nix_up : LixsConf → Calls → Bool
nix_up conf c =
    if conf.unix_sockets
    then usable c.rw && is_some c.rw.socket && (usable c.ro && is_some c.ro.socket)
    else true

-- The file is there that was there or was made, unless it is removed after the event manager has run.
abbrev pub left : Bool → LixsConf → Calls → Bool → Bool
left pid_file conf c ran = pid_file && not (ran && (conf.write_pid_file && c.pid_unlink))

module _ (conf : LixsConf) (c : Calls) where
  -- The log is open, the program is a daemon, the file of its id is written, and the parts are up, of
  -- these, what the configuration asks for.
  abbrev pub logged : Bool
  logged = if conf.log_to_file then is_some c.log_fopen else true

  abbrev pub detached : Bool
  detached = if conf.daemonize then c.daemon else true

  abbrev pub pid_written : Bool
  pid_written = if conf.write_pid_file then is_some c.pid_fopen && c.pid_fprintf else true

  abbrev pub serves : Bool
  serves = nix_up conf c && (bus_up conf c && virq_up conf c)

  -- The page and the port of the bus are there, and its connection fails.
  abbrev pub bus_dies : Bool
  bus_dies = conf.xenbus && (is_mapped c.bus && not (connects c.bus.evtchn))

  abbrev pub dies : Bool
  dies = nix_up conf c && bus_dies

  abbrev pub started : Bool
  started = not conf.error && (not conf.help && (logged && detached))

  abbrev pub all_up : Bool
  all_up = started && (pid_written && serves)
