-- ===== src/App/Exit.antt =====
-- What `main` returns, and when.
use lixs.Base.{
  ℕ, ◌≡◌, ◌∙◌, refl, Bool, true, false, not, ◌&&◌, ◌||◌, Option, none, some, is_some, List, if_kept,
  if◌then◌else◌, arith,
}
use lixs.Base.Text.{Text}
use lixs.App.{Calls, Outcome, App, Objects, objects, detach, with_log, configured, main}
use lixs.Log
use lixs.Log.{Logger}
use lixs.LixsConf.Options.{daemon_logs}
use lixs.LixsConf.{Level, LixsConf, Opt, lixs_conf}
use lixs.System.{System, Thrown}
use lixs.App.Up.{is_0, is_uncaught, logged, detached, pid_written, serves, dies, started, all_up}
use lixs.App.Ends.{choice-Ends, over-Ends, at_pid, returning-Ends, start-Ends, Ends}

-- The description of `main`, for a configuration, what the system's calls return, and whether an
-- exception leaves the event manager.
pub record Exits (thr : Bool) (conf : LixsConf) (c : Calls) (r : Outcome × App) : Type 0 where
  pub code : is_0 r.0 ≡ (all_up conf c && not thr || not conf.error && conf.help)
  pub run : r.1.ran ≡ all_up conf c
  pub dead :
      is_uncaught r.0
      ≡ (started conf c && (pid_written conf c && dies conf c) || all_up conf c && thr)
  pub pid : r.1.pid_file ≡ (
      started conf c
      && (conf.write_pid_file
          && (is_some c.pid_fopen && not (all_up conf c && not thr && c.pid_unlink))))

run_alike :
    (e h l d k : Bool)
    → e ≡ false
    → h ≡ false
    → (l && (d && k)) ≡ ((not e && (not h && (l && d))) && k)
run_alike e h l d k p q = ground (arith, p, q)

dead_alike :
    (e h l d k k' t : Bool)
    → e ≡ false
    → h ≡ false
    → (l && (d && k) || (l && (d && k')) && t)
      ≡ (((not e && (not h && (l && d))) && k) || ((not e && (not h && (l && d))) && k') && t)
dead_alike e h l d k k' t p q = ground (arith, p, q)

code_alike :
    (e h l d k t : Bool)
    → e ≡ false
    → h ≡ false
    → ((l && (d && k)) && not t) ≡ (((not e && (not h && (l && d))) && k) && not t || not e && h)
code_alike e h l d k t p q = ground (arith, p, q)

pid_alike :
    (e h l d w f k u t : Bool)
    → e ≡ false
    → h ≡ false
    → ((l && (d && (w && f))) && not (((l && (d && k)) && not t) && (w && u))) ≡ (
        (not e && (not h && (l && d)))
        && (w && (f && not (((not e && (not h && (l && d))) && k) && not t && u))))
pid_alike e h l d w f k u t p q = ground (arith, p, q)

module _ {E : Type 0} (run : Objects E × System → Objects E × System) (thrown : Option Thrown)
    (size : ℕ) (conf : LixsConf) (c : Calls) where
  detach-Ends :
      (daemonize log_to_file ok : Bool) (o : Objects E) (a : App)
      → (if daemonize then log_to_file else true) ≡ true
      → a.ran ≡ false
      → a.pid_file ≡ false
      → Ends
          (is_some thrown)
          ((if daemonize then ok else true) && (conf.write_pid_file && is_some c.pid_fopen))
          conf
          c
          (detach run thrown size conf c daemonize log_to_file ok o a)
          ((if daemonize then ok else true) && ((pid_written conf c) && (serves conf c)))
          ((if daemonize then ok else true) && ((pid_written conf c) && (dies conf c)))
  detach-Ends false l ok o a g e f = start-Ends run thrown size conf c o a e f
  detach-Ends true true true o a g e f = start-Ends run thrown size conf c o a e f
  detach-Ends true true false o a g e f = returning-Ends o a e f
  detach-Ends true false ok o a g e f = absurd (ground (arith, g))

  with_log-Ends :
      (r : Option Logger × System) (a : App)
      → (if conf.daemonize then conf.log_to_file else true) ≡ true
      → a.ran ≡ false
      → a.pid_file ≡ false
      → Ends
          (is_some thrown)
          (is_some r.0 && ((detached conf c) && (conf.write_pid_file && is_some c.pid_fopen)))
          conf
          c
          (with_log run thrown size conf c r a)
          (is_some r.0 && ((detached conf c) && ((pid_written conf c) && (serves conf c))))
          (is_some r.0 && ((detached conf c) && ((pid_written conf c) && (dies conf c))))
  with_log-Ends (none, s) a g e f = record { code = refl; run = e; dead = refl; pid = f }
  with_log-Ends (some log, s) a g e f =
      detach-Ends conf.daemonize conf.log_to_file c.daemon (objects log) (record a { system = s }) g
        e f

  is_some-to_file :
      (l : Level) (f : Option ℕ) (s : System) → is_some (Log.to_file l f s).0 ≡ is_some f
  unfolding Log.to_file
  is_some-to_file l none s = refl
  is_some-to_file l (some fd) s = refl

  -- The configuration is one to start with, and whether it starts.
  logged-Ends :
      (a : App)
      → (if conf.daemonize then conf.log_to_file else true) ≡ true
      → a.ran ≡ false
      → a.pid_file ≡ false
      → Ends
          (is_some thrown)
          ((logged conf c) && ((detached conf c) && (conf.write_pid_file && is_some c.pid_fopen)))
          conf
          c
          (if conf.log_to_file
            then with_log run thrown size conf c (Log.to_file conf.log_level c.log_fopen a.system) a
            else with_log run thrown size conf c (some (Log.to_stdout conf.log_level), a.system) a)
          ((logged conf c) && ((detached conf c) && ((pid_written conf c) && (serves conf c))))
          ((logged conf c) && ((detached conf c) && ((pid_written conf c) && (dies conf c))))
  logged-Ends a g e f =
      let made = is_some-to_file conf.log_level c.log_fopen a.system in
      at_pid
        (over-Ends
          (choice-Ends conf.log_to_file _ _ _ _ _ _
            (with_log-Ends (Log.to_file conf.log_level c.log_fopen a.system) a g e f)
            (with_log-Ends (some (Log.to_stdout conf.log_level), a.system) a g e f))
          (ground (arith, made)) (ground (arith, made)))
        (ground (arith, made))

  configured-Exits :
      (a : App)
      → (if conf.daemonize then conf.log_to_file else true) ≡ true
      → a.ran ≡ false
      → a.pid_file ≡ false
      → Exits (is_some thrown) conf c (configured run thrown size conf c a)
  unfolding configured
  configured-Exits a g e f =
      if_kept (Exits (is_some thrown) conf c) conf.error _ _
        (λ h. record {
          code = ground (arith, h);
          run = ground (arith, e, h);
          dead = ground (arith, h);
          pid = ground (arith, f, h);
        })
        (λ h.
          if_kept (Exits (is_some thrown) conf c) conf.help _ _
            (λ h'. record {
              code = ground (arith, h, h');
              run = ground (arith, e, h, h');
              dead = ground (arith, h, h');
              pid = ground (arith, f, h, h');
            })
            (λ h'.
              (let ends = logged-Ends a g e f in
                record {
                  code =
                      ends.code
                      ∙ code_alike conf.error conf.help (logged conf c) (detached conf c)
                          (pid_written conf c && serves conf c) (is_some thrown) h h';
                  run =
                      ends.run
                      ∙ run_alike conf.error conf.help (logged conf c) (detached conf c)
                          (pid_written conf c && serves conf c) h h';
                  dead =
                      ends.dead
                      ∙ dead_alike conf.error conf.help (logged conf c) (detached conf c)
                          (pid_written conf c && dies conf c) (pid_written conf c && serves conf c)
                          (is_some thrown) h h';
                  pid =
                      ends.pid
                      ∙ pid_alike conf.error conf.help (logged conf c) (detached conf c)
                          conf.write_pid_file (is_some c.pid_fopen)
                          (pid_written conf c && serves conf c) c.pid_unlink (is_some thrown) h h';
                })))

module _ {E : Type 0} (run : Objects E × System → Objects E × System) (thrown : Option Thrown)
    (size : ℕ) where
  -- From a state where the event manager has not run and there is no file of the process's id, for any
  -- command line, and whatever the calls of the system return. The event manager runs exactly where the
  -- configuration is no error and no question for help, the log can be opened, the program can become a
  -- daemon, the file can be written, and the server, the bus and the handler of exceptions come up, of
  -- these, what the configuration asks for. 0 is returned exactly where it runs and no exception leaves
  -- it, and where help is asked for without an error. An exception leaves `main` exactly where it leaves
  -- the event manager that runs, and where the bus is asked for, all before it is up, its page and its
  -- port are there, and its connection fails. The file is there in the end exactly where it was made and
  -- it is not so that the event manager has run, no exception has left it, and the file can be removed.
  pub main-Exits :
      (cmd : Text) (opts : List Opt) (rest : List Text) (c : Calls) (a : App)
      → a.ran ≡ false
      → a.pid_file ≡ false
      → Exits (is_some thrown) (lixs_conf cmd opts rest) c (main run thrown size cmd opts rest c a)
  unfolding main
  main-Exits cmd opts rest c a e f =
      configured-Exits run thrown size (lixs_conf cmd opts rest) c a (daemon_logs cmd opts rest) e f
