-- ===== src/LixsConf.antt =====
-- app/lixs_conf.cc: the configuration from the command line. The options are those that
-- `getopt_long` returns, in their order, with their arguments, and `rest` is what it leaves over; an
-- option that it does not know, or whose argument is missing, is `opt_other`. The messages that are
-- printed are left out.
pub mod Options
use lixs.Base.{Bool, true, false, Option, none, some, List, [], ◌∷◌, ite}
use lixs.Base.Text.{Text, codes, text_dec}

pub data Level : Type 0 where
  level_off level_error level_warn level_info level_debug level_trace : Level

pub data Opt : Type 0 where
  opt_help opt_daemon opt_xenbus opt_virq_dom_exc opt_unix_sockets opt_other : Opt
  opt_pid_file opt_log_file : Option Text → Opt
  opt_log_level opt_socket_path opt_socket_ro_path : Text → Opt

pub record LixsConf : Type 0 where
  pub help : Bool
  pub daemonize : Bool
  pub write_pid_file : Bool
  pub pid_file : Text
  pub log_to_file : Bool
  pub log_file : Text
  pub log_level : Level
  pub xenbus : Bool
  pub virq_dom_exc : Bool
  pub unix_sockets : Bool
  pub unix_socket_path : Text
  pub unix_socket_ro_path : Text
  pub error : Bool
  pub cmd : Text

abbrev pub defaults : Text → LixsConf
defaults cmd = record {
  help = false;
  daemonize = false;
  write_pid_file = false;
  pid_file = codes "/var/run/xenstored.pid";
  log_to_file = false;
  log_file = codes "/var/log/xen/lixs.log";
  log_level = level_info;
  xenbus = false;
  virq_dom_exc = false;
  unix_sockets = false;
  unix_socket_path = codes "/run/xenstored/socket";
  unix_socket_ro_path = codes "/run/xenstored/socket_ro";
  error = false;
  cmd = cmd;
}

-- The comparisons of `optarg_str`; `none` is an invalid level.
unfoldable pub level_of : Text → Option Level
level_of s = ite (text_dec s (codes "off")) (some level_off) (
    ite (text_dec s (codes "error")) (some level_error) (
      ite (text_dec s (codes "warn")) (some level_warn) (
        ite (text_dec s (codes "info")) (some level_info) (
          ite (text_dec s (codes "debug")) (some level_debug)
            (ite (text_dec s (codes "trace")) (some level_trace) none)))))

abbrev set_level : Option Level → LixsConf → LixsConf
set_level none c = record c { error = true }
set_level (some l) c = record c { log_level = l }

abbrev or_kept : Option Text → Text → Text
or_kept none kept = kept
or_kept (some s) kept = s

-- `switch (opt)`
unfoldable pub handle : Opt → LixsConf → LixsConf
handle opt_help c = record c { help = true }
handle opt_daemon c = record c { daemonize = true; log_to_file = true; write_pid_file = true }
handle (opt_pid_file arg) c = record c { write_pid_file = true; pid_file = or_kept arg c.pid_file }
handle (opt_log_file arg) c = record c { log_to_file = true; log_file = or_kept arg c.log_file }
handle (opt_log_level arg) c = set_level (level_of arg) c
handle opt_xenbus c = record c { xenbus = true }
handle opt_virq_dom_exc c = record c { virq_dom_exc = true }
handle opt_unix_sockets c = record c { unix_sockets = true }
handle (opt_socket_path arg) c = record c { unix_socket_path = arg }
handle (opt_socket_ro_path arg) c = record c { unix_socket_ro_path = arg }
handle opt_other c = record c { error = true }

unfoldable pub handle_all : List Opt → LixsConf → LixsConf
handle_all [] c = c
handle_all (o ∷ os) c = handle_all os (handle o c)

-- The loop over the arguments that are left.
unfoldable pub reject_rest : List Text → LixsConf → LixsConf
reject_rest [] c = c
reject_rest (arg ∷ args) c = reject_rest args (record c { error = true })

unfoldable pub lixs_conf : Text → List Opt → List Text → LixsConf
lixs_conf cmd opts rest = reject_rest rest (handle_all opts (defaults cmd))
