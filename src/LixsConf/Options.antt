-- ===== src/LixsConf/Options.antt =====
-- The configuration as a function of which options are on the command line.
use lixs.Base.{
  refl, ◌≡◌, ◌∙◌, Bool, true, false, ◌||◌, Option, none, some, List, [], ◌∷◌, if◌then◌else◌, arith,
}
use lixs.Base.Text.{Text}
use lixs.LixsConf.{
  Level, Opt, opt_help, opt_daemon, opt_xenbus, opt_virq_dom_exc, opt_unix_sockets, opt_other,
  opt_pid_file, opt_log_file, opt_log_level, opt_socket_path, opt_socket_ro_path, LixsConf,
  defaults, level_of, handle, handle_all, reject_rest, lixs_conf,
}

abbrev pub any : (Opt → Bool) → List Opt → Bool
any test [] = false
any test (o ∷ os) = test o || any test os

abbrev pub is_none : Option Level → Bool
is_none none = true
is_none (some l) = false

-- The options that are errors.
abbrev pub invalid : Opt → Bool
invalid opt_other = true
invalid (opt_log_level arg) = is_none (level_of arg)
invalid o = false

abbrev pub daemon : Opt → Bool
daemon opt_daemon = true
daemon o = false

abbrev pub wants_pid_file : Opt → Bool
wants_pid_file opt_daemon = true
wants_pid_file (opt_pid_file arg) = true
wants_pid_file o = false

abbrev pub wants_log_file : Opt → Bool
wants_log_file opt_daemon = true
wants_log_file (opt_log_file arg) = true
wants_log_file o = false

abbrev pub left_over : List Text → Bool
left_over [] = false
left_over (arg ∷ args) = true

handle-switches :
    (o : Opt) (c : LixsConf)
    → ((handle o c).error ≡ (c.error || invalid o))
      × ((handle o c).daemonize ≡ (c.daemonize || daemon o))
      × ((handle o c).write_pid_file ≡ (c.write_pid_file || wants_pid_file o))
      × ((handle o c).log_to_file ≡ (c.log_to_file || wants_log_file o))
unfolding handle
handle-switches opt_help c = ground arith
handle-switches opt_daemon c = ground arith
handle-switches (opt_pid_file arg) c = ground arith
handle-switches (opt_log_file arg) c = ground arith
handle-switches (opt_log_level arg) c = ground arith
handle-switches opt_xenbus c = ground arith
handle-switches opt_virq_dom_exc c = ground arith
handle-switches opt_unix_sockets c = ground arith
handle-switches (opt_socket_path arg) c = ground arith
handle-switches (opt_socket_ro_path arg) c = ground arith
handle-switches opt_other c = ground arith

handle_all-switches :
    (os : List Opt) (c : LixsConf)
    → ((handle_all os c).error ≡ (c.error || any invalid os))
      × ((handle_all os c).daemonize ≡ (c.daemonize || any daemon os))
      × ((handle_all os c).write_pid_file ≡ (c.write_pid_file || any wants_pid_file os))
      × ((handle_all os c).log_to_file ≡ (c.log_to_file || any wants_log_file os))
unfolding handle_all
handle_all-switches [] c = ground arith
handle_all-switches (o ∷ os) c =
    let (e0, d0, p0, l0) = handle-switches o c in
    let (e, d, p, l) = handle_all-switches os (handle o c) in
    (ground (arith, e, e0), ground (arith, d, d0), ground (arith, p, p0), ground (arith, l, l0))

reject_rest-switches :
    (args : List Text) (c : LixsConf)
    → ((reject_rest args c).error ≡ (c.error || left_over args))
      × ((reject_rest args c).daemonize ≡ c.daemonize)
      × ((reject_rest args c).write_pid_file ≡ c.write_pid_file)
      × ((reject_rest args c).log_to_file ≡ c.log_to_file)
unfolding reject_rest
reject_rest-switches [] c = ground arith
reject_rest-switches (arg ∷ args) c =
    let (e, d, p, l) = reject_rest-switches args (record c { error = true }) in
    (ground (arith, e), d, p, l)

-- The configuration is an error exactly when an option is not known or names a log level that is
-- not one, or arguments are left over. It is a daemon's exactly when some option says so; a pid file
-- is written, and the log goes to a file, exactly when that is so or an option asks for it.
-- The order of the options does not matter for this.
pub lixs_conf-switches :
    (cmd : Text) (opts : List Opt) (rest : List Text)
    → ((lixs_conf cmd opts rest).error ≡ (any invalid opts || left_over rest))
      × ((lixs_conf cmd opts rest).daemonize ≡ any daemon opts)
      × ((lixs_conf cmd opts rest).write_pid_file ≡ any wants_pid_file opts)
      × ((lixs_conf cmd opts rest).log_to_file ≡ any wants_log_file opts)
unfolding lixs_conf
lixs_conf-switches cmd opts rest =
    let (e, d, p, l) = handle_all-switches opts (defaults cmd) in
    let (e', d', p', l') = reject_rest-switches rest (handle_all opts (defaults cmd)) in
    (ground (arith, e, e'), d' ∙ d, p' ∙ p, l' ∙ l)

daemon_wants : (o : Opt) → (if daemon o then wants_log_file o else true) ≡ true
daemon_wants opt_daemon = refl
daemon_wants opt_help = refl
daemon_wants (opt_pid_file arg) = refl
daemon_wants (opt_log_file arg) = refl
daemon_wants (opt_log_level arg) = refl
daemon_wants opt_xenbus = refl
daemon_wants opt_virq_dom_exc = refl
daemon_wants opt_unix_sockets = refl
daemon_wants (opt_socket_path arg) = refl
daemon_wants (opt_socket_ro_path arg) = refl
daemon_wants opt_other = refl

any_daemon : (os : List Opt) → (if any daemon os then any wants_log_file os else true) ≡ true
any_daemon [] = refl
any_daemon (o ∷ os) = ground (arith, daemon_wants o, any_daemon os)

-- Where the configuration asks for a daemon, it logs to a file.
pub daemon_logs :
    (cmd : Text) (opts : List Opt) (rest : List Text)
    → (if (lixs_conf cmd opts rest).daemonize then (lixs_conf cmd opts rest).log_to_file else true)
      ≡ true
daemon_logs cmd opts rest =
    let (e, d, p, l) = lixs_conf-switches cmd opts rest in ground (arith, d, l, any_daemon opts)
