-- ===== src/Tests/Startup.antt =====
-- Starting and stopping: the objects of the program over what the system answers.
use lixs.Base.{
  ℕ, ◌≡◌, refl, true, false, ◌&&◌, Option, none, some, is_some, List, [], ◌∷◌, ◌++◌, ite, arith,
}
use native.Mathlib.Decide.{ℕ_discrete}
use lixs.Base.Key.{nat_key}
use lixs.Base.Map
use lixs.Base.Map.{Map}
use lixs.Base.Text.{Text, codes}
use lixs.App.{Calls, App, Objects, main}
use lixs.App.Exit.{Exits, main-Exits}
use lixs.Domain.{Domain}
use lixs.Domain.Setup.{DomainCalls, caught, domain, domain-lifetime}
use lixs.DomExc.{Info, info, DomExc, callback, acknowledged}
use lixs.DomExc.Setup.{DomExcCalls, dom_exc, dom_exc-leaked, leaked}
use lixs.DomExc.News.{survivors, news, Answers, Keyed, releases, ends}
use lixs.DomExc.Survivors.{callback-survivors}
use lixs.DomExc.Settles.{callback_settles}
use lixs.LixsConf.{opt_xenbus, opt_virq_dom_exc, opt_pid_file, lixs_conf}
use lixs.Mstore.Store
use lixs.RingConn.Setup.{EvtchnCalls}
use lixs.System.{System, is_built, escapes}
use lixs.System.Lifetime.{lifetime}
use lixs.UnixSockServer.{UnixSockServer, client_dead}
use lixs.UnixSockServer.Ids.{Fresh, callback-Fresh}
use lixs.UnixSockServer.Lifetime.{usable, left_open, unix_sock_server-left_open}
use lixs.UnixSockServer.Setup.{no_entry, SocketCalls, unix_sock_server}
use lixs.Xenstore.{Xenstore}
use lixs.XsProto.Ops.{World}

abbrev system : System
system = record {
  fds = 0 ∷ [];
  evtchns = [];
  xcs = [];
  gnttabs = [];
  pages = [];
  watched = [];
  paths = [];
}

-- The channel is bound, and cannot be notified.
abbrev evtchn : EvtchnCalls
evtchn = record {
  handle = some 4;
  bind_interdomain = some 5;
  unmask = true;
  notify = false;
  fd = 6;
}

abbrev domain_calls : DomainCalls
domain_calls = record { xcg_handle = some 7; interface = some 8; evtchn = evtchn }

domain-lifetime_example :
    (lifetime (lixs.Domain.Setup.close {E = ℕ}) (domain {E = ℕ} 1 2 domain_calls system) ≡ system)
    × (escapes caught (domain {E = ℕ} 1 2 domain_calls system).0 ≡ false)
domain-lifetime_example = domain-lifetime {E = ℕ} 1 2 domain_calls system

abbrev rw_calls : SocketCalls
rw_calls = record { socket = some 3; unlink = no_entry; bind = true; listen = true }

abbrev ro_calls : SocketCalls
ro_calls = record { socket = some 4; unlink = no_entry; bind = false; listen = true }

abbrev rw_path : Text
rw_path = codes "/run/socket"

abbrev ro_path : Text
ro_path = codes "/run/socket_ro"

unix_sock_server-left_open_example :
    ((lifetime
        (lixs.UnixSockServer.Setup.close [])
        (unix_sock_server 108 rw_calls ro_calls rw_path ro_path system)).fds
      ≡ left_open (usable rw_calls) rw_calls.socket ro_calls ++ system.fds)
    × ((lifetime
          (lixs.UnixSockServer.Setup.close [])
          (unix_sock_server 108 rw_calls ro_calls rw_path ro_path system)).watched
        ≡ system.watched)
    × (is_built (unix_sock_server 108 rw_calls ro_calls rw_path ro_path system).0 ≡ (
        usable rw_calls && is_some rw_calls.socket && (usable ro_calls && is_some ro_calls.socket)))
unix_sock_server-left_open_example =
    unix_sock_server-left_open 108 rw_calls ro_calls rw_path ro_path system

abbrev virq_calls : DomExcCalls
virq_calls = record { xc_handle = some 9; xce_handle = none; virq_port = some 1; fd = 2 }

dom_exc-leaked_example :
    (lifetime lixs.DomExc.Setup.close (dom_exc virq_calls system) ≡ record system {
      xcs =
          leaked virq_calls.xc_handle
            (is_some virq_calls.xce_handle && is_some virq_calls.virq_port)
          ++ system.xcs;
    })
    × (is_built (dom_exc virq_calls system).0 ≡ (
        is_some virq_calls.xc_handle
        && (is_some virq_calls.xce_handle && is_some virq_calls.virq_port)))
dom_exc-leaked_example = dom_exc-leaked virq_calls system

-- The bus is there, and its connection fails.
abbrev calls : Calls
calls = record {
  log_fopen = none;
  daemon = false;
  pid_fopen = some 3;
  pid_fprintf = true;
  pid_unlink = true;
  rw = rw_calls;
  ro = ro_calls;
  bus = record { port = some 1; fd = some 2; ptr = some 3; evtchn = evtchn };
  virq = virq_calls;
}

abbrev app : App
app = record { system = system; pid_file = false; ran = false }

abbrev run : Objects ℕ × System → Objects ℕ × System
run o = o

abbrev opts : List lixs.LixsConf.Opt
opts = opt_xenbus ∷ opt_pid_file none ∷ []

main-Exits_example :
    Exits false
      (lixs_conf (codes "lixs") opts [])
      calls
      (main run none 108 (codes "lixs") opts [] calls app)
main-Exits_example = main-Exits run none 108 (codes "lixs") opts [] calls app refl refl

-- Domain 1 is gone, domain 2 has crashed.
abbrev getinfo : ℕ → Info
getinfo domid = info 1 2 false false true

abbrev doms : Map ℕ (Domain ℕ)
doms =
    (1, record { dead_cb = 0; active = true; domid = 1 })
    ∷ (2, record { dead_cb = 0; active = true; domid = 2 })
    ∷ []

abbrev world : World (Domain ℕ)
world = record { xs = lixs.Xenstore.init Store.init (lixs.EventMgr.init); dmgr = doms }

-- A domain has one watch.
abbrev ended : Domain ℕ → Xenstore → Xenstore
ended d x = lixs.Xenstore.watch_del (λ n. codes "/a") d.dead_cb x

abbrev handler : DomExc
handler = record { alive = true; actions = [] }

doms-Keyed : Keyed doms
unfolding Keyed Map.find
doms-Keyed = (refl, ground arith, (refl, refl, tt))

doms-Answers : Answers getinfo doms
unfolding Answers
doms-Answers = (refl, (refl, tt))

callback-survivors_example : callback ended getinfo none true true false false handler world ≡ (
  acknowledged none true handler,
  record {
    xs = releases (news getinfo world.dmgr) (ends ended getinfo world.dmgr world.xs);
    dmgr = survivors getinfo world.dmgr;
  },
)
callback-survivors_example =
    callback-survivors ended getinfo none true true false handler world refl doms-Keyed doms-Answers

callback_settles_example :
    (let once = callback ended getinfo (some 1) true true false false handler world in
      callback ended getinfo (some 1) true true false false once.0 once.1 ≡ once)
callback_settles_example =
    callback_settles ended getinfo 1 true false handler world refl doms-Keyed doms-Answers

-- One client, with the id 0.
abbrev server : UnixSockServer Text
server = record { clients = (0, rw_path) ∷ []; next_id = 1; removed = [] }

abbrev make : ℕ → ℕ → Option Text
make id fd = some ro_path

server-Fresh : Fresh server
unfolding Map.find
server-Fresh = record { later = λ id le. ground arith }

callback-Fresh_example :
    (s' : UnixSockServer Text) × (lixs.UnixSockServer.callback make true false false 3
        (some 7)
        server
      ≡ some s')
    × Fresh s'
    × (Map.find 0 s'.clients
        ≡ ite (ℕ_discrete server.next_id 0) (some ro_path) (Map.find 0 server.clients))
    × Fresh (client_dead 0 s')
    × (Map.find 0 (client_dead 0 s').clients ≡ ite (ℕ_discrete 0 0) none (Map.find 0 s'.clients))
callback-Fresh_example =
    callback-Fresh make true false 3 7 ro_path 0 0 server server-Fresh (omega arith) refl
