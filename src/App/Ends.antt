-- ===== src/App/Ends.antt =====
-- How the parts of `main` end, from the last one to the first.
use mathlib.Core.Path.{subst}
use lixs.Base.{
  ℕ, ◌≡◌, refl, ap, Bool, true, false, not, ◌&&◌, ◌||◌, Option, none, some, is_some, if◌then◌else◌,
  arith,
}
use lixs.App.{
  Calls, Outcome, returns_minus_1, App, Objects, create_pid_file, write_pid_file, remove_pid_file,
  is_unix_sock_server_error, is_dom_exc_error, returning, handled, stopped, serve, with_virq,
  start_virq, with_bus, start_bus, with_nix, start_nix, with_pid_file, start,
}
use lixs.DomExc.Setup.{Handles, dom_exc, dom_exc-leaked, dom_exc-escapes}
use lixs.LixsConf.{LixsConf}
use lixs.RingConn.Setup.{RingConnBase}
use lixs.System.{System, Thrown, Built, built, throws, escapes, is_built, open_fd}
use lixs.UnixSockServer.Setup.{Sockets, unix_sock_server}
use lixs.UnixSockServer.Lifetime.{unix_sock_server-left_open, unix_sock_server-escapes}
use lixs.Xenbus.{XenbusMapper, xenbus, xenbus-up, is_xenbus_error}
use lixs.App.Up.{is_0, is_uncaught, virq_up, bus_up, nix_up, left, serves, bus_dies, dies}

-- How a part of `main` ends: whether it has run the event manager, whether it returned 0, whether an
-- exception has left it, and whether the file of the process's id is there. `thr` is whether an exception
-- leaves the event manager.
pub record Ends (thr pid_file : Bool) (conf : LixsConf) (c : Calls) (r : Outcome × App)
    (ran dies : Bool) : Type 0 where
  pub code : is_0 r.0 ≡ (ran && not thr)
  pub run : r.1.ran ≡ ran
  pub dead : is_uncaught r.0 ≡ (dies || ran && thr)
  pub pid : r.1.pid_file ≡ left pid_file conf c (ran && not thr)

module _ {thr : Bool} {conf : LixsConf} {c : Calls} where
  pub choice-Ends :
      {p q : Bool} (b : Bool) (x y : Outcome × App) (r r' d d' : Bool)
      → Ends thr p conf c x r d
      → Ends thr q conf c y r' d'
      → Ends thr
          (if b then p else q)
          conf
          c
          (if b then x else y)
          (if b then r else r')
          (if b then d else d')
  choice-Ends true x y r r' d d' ex ey = ex
  choice-Ends false x y r r' d d' ex ey = ey

  pub pick-Ends :
      {p : Bool} (b : Bool) (x y : Outcome × App) (r r' d d' : Bool)
      → Ends thr p conf c x r d
      → Ends thr p conf c y r' d'
      → Ends thr p conf c (if b then x else y) (if b then r else r') (if b then d else d')
  pick-Ends true x y r r' d d' ex ey = ex
  pick-Ends false x y r r' d d' ex ey = ey

  pub over-Ends :
      {p : Bool} {x : Outcome × App} {r r' d d' : Bool}
      → Ends thr p conf c x r d
      → r ≡ r'
      → d ≡ d'
      → Ends thr p conf c x r' d'
  over-Ends {p} {x} {r} {r'} {d} e f g =
      subst (λ d. Ends thr p conf c x r' d) g (subst (λ r. Ends thr p conf c x r d) f e)

  pub at_pid :
      {p q : Bool} {x : Outcome × App} {r d : Bool}
      → Ends thr p conf c x r d
      → p ≡ q
      → Ends thr q conf c x r d
  at_pid {p} {q} {x} {r} {d} e f = subst (λ p. Ends thr p conf c x r d) f e

  pub returning-Ends :
      {E : Type 0} {p : Bool} (o : Objects E) (a : App)
      → a.ran ≡ false
      → a.pid_file ≡ p
      → Ends thr p conf c (returning returns_minus_1 o a) false false
  returning-Ends o a e f = record { code = refl; run = e; dead = refl; pid = ground (arith, f) }

  handled-Ends :
      {E : Type 0} {p : Bool} (caught : Thrown → Bool) (e : Thrown) (o : Objects E) (a : App)
      → a.ran ≡ false
      → a.pid_file ≡ p
      → Ends thr p conf c (handled caught e o a) false (not (caught e))
  handled-Ends caught e o a ran f = record {
    code = ground arith;
    run = ground (arith, ran);
    dead = ground arith;
    pid = ground (arith, f);
  }

module _ {E : Type 0} (run : Objects E × System → Objects E × System) (thrown : Option Thrown)
    (size : ℕ) (conf : LixsConf) (c : Calls) where
  stopped-Ends :
      {p : Bool} (t : Option Thrown) (o : Objects E) (a : App)
      → a.pid_file ≡ p
      → a.ran ≡ true
      → Ends (is_some t) p conf c (stopped run thrown size conf c t o a) true false
  unfolding remove_pid_file
  stopped-Ends none o a e f = record {
    code = refl;
    run = ground (arith, f);
    dead = refl;
    pid = ground (arith, e);
  }
  stopped-Ends (some x) o a e f = record {
    code = refl;
    run = f;
    dead = refl;
    pid = ground (arith, e);
  }

  serve-Ends :
      {p : Bool} (o : Objects E) (a : App)
      → a.pid_file ≡ p
      → Ends (is_some thrown) p conf c (serve run thrown size conf c o a) true false
  serve-Ends o a e = stopped-Ends thrown _ _ e refl

  with_virq-Ends :
      {p : Bool} (o : Objects E) (a : App) (r : Built Handles × System)
      → a.ran ≡ false
      → a.pid_file ≡ p
      → Ends
          (is_some thrown)
          p
          conf
          c
          (with_virq run thrown size conf c o a r)
          (is_built r.0)
          (escapes is_dom_exc_error r.0)
  unfolding escapes
  with_virq-Ends o a (built h, s) e f =
      serve-Ends (record o { virq = some h }) (record a { system = s }) f
  with_virq-Ends o a (throws x, s) e f =
      handled-Ends is_dom_exc_error x o (record a { system = s }) e f

  start_virq-Ends :
      {p : Bool} (o : Objects E) (a : App)
      → a.ran ≡ false
      → a.pid_file ≡ p
      → Ends
          (is_some thrown)
          p
          conf
          c
          (start_virq run thrown size conf c o a)
          (virq_up conf c)
          false
  start_virq-Ends o a e f =
      over-Ends
        (pick-Ends conf.virq_dom_exc _ _ _ _ _ _ (with_virq-Ends o a (dom_exc c.virq a.system) e f)
          (serve-Ends o a f))
        (ap (λ b. if conf.virq_dom_exc then b else true) (dom_exc-leaked c.virq a.system).1)
        (ground (arith, dom_exc-escapes is_dom_exc_error c.virq a.system refl))

  with_bus-Ends :
      {p : Bool} (o : Objects E) (a : App) (r : Built (XenbusMapper × RingConnBase) × System)
      → a.ran ≡ false
      → a.pid_file ≡ p
      → Ends
          (is_some thrown)
          p
          conf
          c
          (with_bus run thrown size conf c o a r)
          (is_built r.0 && virq_up conf c)
          (escapes is_xenbus_error r.0)
  unfolding escapes
  with_bus-Ends o a (built x, s) e f =
      start_virq-Ends (record o { bus = some x }) (record a { system = s }) e f
  with_bus-Ends o a (throws x, s) e f =
      handled-Ends is_xenbus_error x o (record a { system = s }) e f

  start_bus-Ends :
      {p : Bool} (o : Objects E) (a : App)
      → a.ran ≡ false
      → a.pid_file ≡ p
      → Ends
          (is_some thrown)
          p
          conf
          c
          (start_bus run thrown size conf c o a)
          (bus_up conf c && virq_up conf c)
          (bus_dies conf c)
  start_bus-Ends o a e f =
      let (up, falls) = xenbus-up c.bus a.system in
      over-Ends
        (pick-Ends conf.xenbus _ _ _ _ _ _ (with_bus-Ends o a (xenbus c.bus a.system) e f)
          (start_virq-Ends o a e f))
        (ground (arith, up)) (ground (arith, falls))

  with_nix-Ends :
      {p : Bool} (o : Objects E) (a : App) (r : Built Sockets × System)
      → a.ran ≡ false
      → a.pid_file ≡ p
      → escapes is_unix_sock_server_error r.0 ≡ false
      → Ends
          (is_some thrown)
          p
          conf
          c
          (with_nix run thrown size conf c o a r)
          (is_built r.0 && (bus_up conf c && virq_up conf c))
          (is_built r.0 && (bus_dies conf c))
  unfolding escapes
  with_nix-Ends o a (built h, s) e f g =
      start_bus-Ends (record o { nix = some h }) (record a { system = s }) e f
  with_nix-Ends o a (throws x, s) e f g =
      over-Ends (handled-Ends is_unix_sock_server_error x o (record a { system = s }) e f) refl g

  start_nix-Ends :
      {p : Bool} (o : Objects E) (a : App)
      → a.ran ≡ false
      → a.pid_file ≡ p
      → Ends
          (is_some thrown)
          p
          conf
          c
          (start_nix run thrown size conf c o a)
          (nix_up conf c && (bus_up conf c && virq_up conf c))
          (nix_up conf c && (bus_dies conf c))
  start_nix-Ends o a e f =
      let server = unix_sock_server size c.rw c.ro conf.unix_socket_path conf.unix_socket_ro_path in
      let (fds, watched, up) =
        unix_sock_server-left_open size c.rw c.ro conf.unix_socket_path conf.unix_socket_ro_path
          a.system in
      over-Ends
        (pick-Ends conf.unix_sockets _ _ _ _ _ _
          (with_nix-Ends o a (server a.system) e f (
            unix_sock_server-escapes is_unix_sock_server_error size c.rw c.ro conf.unix_socket_path
              conf.unix_socket_ro_path a.system refl))
          (start_bus-Ends o a e f))
        (ground (arith, up)) (ground (arith, up))

  write_pid_file-Ends :
      (ok : Bool) (f : Option ℕ) (o : Objects E) (a : App)
      → a.ran ≡ false
      → a.pid_file ≡ false
      → Ends
          (is_some thrown)
          (is_some f)
          conf
          c
          (with_pid_file run thrown size conf c o (write_pid_file ok f a))
          ((is_some f && ok) && (serves conf c))
          ((is_some f && ok) && (dies conf c))
  write_pid_file-Ends ok none o a e g = returning-Ends o a e g
  write_pid_file-Ends true (some fd) o a e g =
      start_nix-Ends o (record a { pid_file = true }) e refl
  write_pid_file-Ends false (some fd) o a e g =
      returning-Ends o (record a { pid_file = true; system = open_fd fd a.system }) e refl

  pub start-Ends :
      (o : Objects E) (a : App)
      → a.ran ≡ false
      → a.pid_file ≡ false
      → Ends
          (is_some thrown)
          (conf.write_pid_file && is_some c.pid_fopen)
          conf
          c
          (start run thrown size conf c o a)
          ((if conf.write_pid_file then is_some c.pid_fopen && c.pid_fprintf else true)
            && (serves conf c))
          ((if conf.write_pid_file then is_some c.pid_fopen && c.pid_fprintf else true)
            && (dies conf c))
  unfolding create_pid_file
  start-Ends o a e f =
      at_pid
        (over-Ends
          (choice-Ends conf.write_pid_file _ _ _ _ _ _
            (write_pid_file-Ends c.pid_fprintf c.pid_fopen o a e f) (start_nix-Ends o a e f))
          (ground arith) (ground arith))
        (ground arith)
