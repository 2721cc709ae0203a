-- ===== src/Domain.antt =====
-- lib/lixs/domain.cc and lib/lixs/sock_client.cc: what a client's object adds to its connection. The
-- mapping of the domain's page is the hypervisor's.
pub mod Setup
use lixs.Base.{ℕ, Bool, true, false, ◌++◌}
use lixs.Base.Decimal.{to_string}
use lixs.Base.Text.{Text, codes}
use lixs.EventMgr
use lixs.EventMgr.{EventMgr}

-- `domain`, where `E` are the callbacks of the event manager.
pub record Domain (E : Type 0) : Type 0 where
  pub dead_cb : E
  pub active : Bool
  pub domid : ℕ

module _ {E : Type 0} where
  unfoldable pub domain : E → ℕ → Domain E
  domain dead_cb domid = record { dead_cb = dead_cb; active = true; domid = domid }

  unfoldable pub is_active : Domain E → Bool
  is_active d = d.active

  unfoldable pub set_inactive : Domain E → Domain E
  set_inactive d = record d { active = false }

  unfoldable pub get_domid : Domain E → ℕ
  get_domid d = d.domid

  unfoldable pub conn_dead : Domain E → EventMgr E → EventMgr E
  conn_dead d emgr = EventMgr.enqueue_event d.dead_cb emgr

unfoldable pub get_id : ℕ → Text
get_id domid = codes "D" ++ to_string domid

-- `sock_client`
pub record SockClient (E : Type 0) : Type 0 where
  pub id : ℕ
  pub dead_cb : E

unfoldable pub client_dead : {E : Type 0} → SockClient E → EventMgr E → EventMgr E
client_dead c emgr = EventMgr.enqueue_event c.dead_cb emgr

unfoldable pub client_id : ℕ → Text
client_id id = codes "S" ++ to_string id
