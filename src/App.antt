-- ===== src/App.antt =====
-- app/lixs.cc: the main program. What the calls of the system return is an argument, and so are `run`:
-- what the event manager makes of the objects until it stops, and `thrown`: the exception that a
-- callback throws through it, where one does. The signal handler and the messages are left out.
pub mod Up
pub mod Ends
pub mod Exit
use lixs.Base.{ℕ, Bool, true, false, not, Option, none, some, List, [], ◌∷◌, if◌then◌else◌}
use lixs.Base.Text.{Text}
use lixs.Domain
use lixs.Domain.{Domain}
use lixs.Domain.Setup.{ForeignRingMapper}
use lixs.DomExc.Setup.{Handles, DomExcCalls, dom_exc}
use lixs.LixsConf.{LixsConf, Opt, lixs_conf}
use lixs.Log
use lixs.Log.{Logger}
use lixs.RingConn.Setup.{RingConnBase}
use lixs.SockConn.Setup.{Sock}
use lixs.System.{
  System, Thrown, Built, built, throws, open_fd, close_fd, unix_sock_server_error, dom_exc_error,
}
use lixs.UnixSockServer.Setup.{Sockets, SocketCalls, unix_sock_server}
use lixs.Xenbus.{XenbusMapper, XenbusCalls, xenbus, is_xenbus_error}

-- What the system's calls return.
pub record Calls : Type 0 where
  pub log_fopen : Option ℕ
  pub daemon : Bool
  pub pid_fopen : Option ℕ
  pub pid_fprintf : Bool
  pub pid_unlink : Bool
  pub rw : SocketCalls
  pub ro : SocketCalls
  pub bus : XenbusCalls
  pub virq : DomExcCalls

-- What `main` returns, 0 or -1, or an exception that it does not catch.
pub data Outcome : Type 0 where
  returns_0 returns_minus_1 : Outcome
  uncaught : Thrown → Outcome

-- The system, whether the file of the process's id is there, and whether the event manager was run.
pub record App : Type 0 where
  pub system : System
  pub pid_file : Bool
  pub ran : Bool

-- The objects of `main`, with those that the server and the manager of the domains have made.
pub record Objects (E : Type 0) : Type 0 where
  pub log : Logger
  pub domains : List (Domain E × (ForeignRingMapper × RingConnBase))
  pub clients : List (ℕ × Sock)
  pub nix : Option Sockets
  pub bus : Option (XenbusMapper × RingConnBase)
  pub virq : Option Handles

abbrev pub write_pid_file : Bool → Option ℕ → App → Bool × App
write_pid_file fprintf none a = (false, a)
write_pid_file true (some fd) a = (true, record a { pid_file = true })
write_pid_file false (some fd) a =
    (false, record a { pid_file = true; system = open_fd fd a.system })

-- The file is closed again, but where `fprintf` fails.
unfoldable pub create_pid_file : Calls → App → Bool × App
create_pid_file c a = write_pid_file c.pid_fprintf c.pid_fopen a

unfoldable pub remove_pid_file : Calls → App → App
remove_pid_file c a = if c.pid_unlink then record a { pid_file = false } else a

abbrev pub is_unix_sock_server_error : Thrown → Bool
is_unix_sock_server_error unix_sock_server_error = true
is_unix_sock_server_error e = false

abbrev pub is_dom_exc_error : Thrown → Bool
is_dom_exc_error dom_exc_error = true
is_dom_exc_error e = false

abbrev close_if : {A : Type 0} → (A → System → System) → Option A → System → System
close_if close none s = s
close_if close (some a) s = close a s

module _ {E : Type 0} where
  abbrev pub objects : Logger → Objects E
  objects log = record {
    log = log;
    domains = [];
    clients = [];
    nix = none;
    bus = none;
    virq = none;
  }

  abbrev close_domains : List (Domain E × (ForeignRingMapper × RingConnBase)) → System → System
  close_domains [] s = s
  close_domains (d ∷ ds) s = close_domains ds (lixs.Domain.Setup.close d s)

  -- The destructors at a `return`, in the order against that of the declarations.
  abbrev unwind : Objects E → System → System
  unwind o s =
      let s1 = close_if lixs.DomExc.Setup.close o.virq s in
      let s2 = close_if lixs.Xenbus.close o.bus s1 in
      let s3 = close_if (lixs.UnixSockServer.Setup.close o.clients) o.nix s2 in
      Log.close o.log (close_domains o.domains s3)

  abbrev pub returning : Outcome → Objects E → App → Outcome × App
  returning code o a = (code, record a { system = unwind o a.system })

  -- `catch (e)` of a constructor's exception, where `caught` tells which it catches.
  abbrev pub handled : (Thrown → Bool) → Thrown → Objects E → App → Outcome × App
  handled caught e o a = if caught e then returning returns_minus_1 o a else (uncaught e, a)

module _ {E : Type 0} (run : Objects E × System → Objects E × System) (thrown : Option Thrown)
    (sun_size : ℕ) (conf : LixsConf) (c : Calls) where
  -- The end of `main` behind `emgr.run()`, which nothing catches: with an exception the objects are not
  -- destroyed, and the file stays.
  abbrev pub stopped : Option Thrown → Objects E → App → Outcome × App
  stopped (some e) o a = (uncaught e, a)
  stopped none o a = returning returns_0 o (if conf.write_pid_file then remove_pid_file c a else a)

  abbrev pub serve : Objects E → App → Outcome × App
  serve o a =
      let (o', s') = run (o, a.system) in stopped thrown o' (record a { system = s'; ran = true })

  abbrev pub with_virq : Objects E → App → Built Handles × System → Outcome × App
  with_virq o a (built h, s) = serve (record o { virq = some h }) (record a { system = s })
  with_virq o a (throws e, s) = handled is_dom_exc_error e o (record a { system = s })

  abbrev pub start_virq : Objects E → App → Outcome × App
  start_virq o a = if conf.virq_dom_exc then with_virq o a (dom_exc c.virq a.system) else serve o a

  abbrev pub with_bus :
      Objects E → App → Built (XenbusMapper × RingConnBase) × System → Outcome × App
  with_bus o a (built x, s) = start_virq (record o { bus = some x }) (record a { system = s })
  with_bus o a (throws e, s) = handled is_xenbus_error e o (record a { system = s })

  abbrev pub start_bus : Objects E → App → Outcome × App
  start_bus o a = if conf.xenbus then with_bus o a (xenbus c.bus a.system) else start_virq o a

  abbrev pub with_nix : Objects E → App → Built Sockets × System → Outcome × App
  with_nix o a (built h, s) = start_bus (record o { nix = some h }) (record a { system = s })
  with_nix o a (throws e, s) = handled is_unix_sock_server_error e o (record a { system = s })

  abbrev pub start_nix : Objects E → App → Outcome × App
  start_nix o a =
      if conf.unix_sockets
      then with_nix o a (
          unix_sock_server sun_size c.rw c.ro conf.unix_socket_path conf.unix_socket_ro_path
            a.system)
      else start_bus o a

  abbrev pub with_pid_file : Objects E → Bool × App → Outcome × App
  with_pid_file o (true, a) = start_nix o a
  with_pid_file o (false, a) = returning returns_minus_1 o a

  abbrev pub start : Objects E → App → Outcome × App
  start o a = if conf.write_pid_file then with_pid_file o (create_pid_file c a) else start_nix o a

  -- `ok` is whether `daemonize` succeeds.
  abbrev pub detach : Bool → Bool → Bool → Objects E → App → Outcome × App
  detach daemonize log_to_file ok o a =
      if daemonize
      then (if not log_to_file
          then returning returns_minus_1 o a
          else if not ok
          then returning returns_minus_1 o a
          else start o a)
      else start o a

  -- The constructor of the logger has thrown, or has made it.
  abbrev pub with_log : Option Logger × System → App → Outcome × App
  with_log (none, s) a = (returns_minus_1, record a { system = s })
  with_log (some log, s) a =
      detach conf.daemonize conf.log_to_file c.daemon (objects log) (record a { system = s })

  unfoldable pub configured : App → Outcome × App
  configured a =
      if conf.error
      then (returns_minus_1, a)
      else if conf.help
      then (returns_0, a)
      else if conf.log_to_file
      then with_log (Log.to_file conf.log_level c.log_fopen a.system) a
      else with_log (some (Log.to_stdout conf.log_level), a.system) a

module _ {E : Type 0} (run : Objects E × System → Objects E × System) (thrown : Option Thrown)
    (sun_size : ℕ) where
  unfoldable pub main : Text → List Opt → List Text → Calls → App → Outcome × App
  main cmd opts rest c a = configured run thrown sun_size (lixs_conf cmd opts rest) c a
