-- ===== src/Xenstore.antt =====
-- lib/lixs/xenstore.cc: the operations that the clients' protocol calls. Each goes to the store;
-- one that succeeds tells the watches. `path_of` is the path of a client's callback object.
pub mod Watches
use lixs.Base.{◌++◌, ℕ, Bool, true, false, Option, none, some, ◌==◌, if◌then◌else◌}
use lixs.Base.Decimal.{to_string}
use lixs.Base.Set.{Set}
use lixs.Base.Text.{Text, codes}
use lixs.Errno.{Status, Result, ok, err, eagain}
use lixs.EventMgr.{EventMgr}
use lixs.Permissions.{PermissionList}
use lixs.Mstore.Store
use lixs.Mstore.Store.{Store}
use lixs.WatchMgr
use lixs.WatchMgr.{WatchMgr, Event}

pub record Xenstore : Type 0 where
  pub st : Store
  pub wmgr : WatchMgr

-- `fire(tid, path)` and `fire_parents(tid, path)`
unfoldable pub fire_up : ℕ → Text → WatchMgr → WatchMgr
fire_up tid path w = WatchMgr.fire_parents tid path (WatchMgr.fire tid path w)

-- The constructor makes the root.
unfoldable pub init : Store → EventMgr Event → Xenstore
init st emgr = record { st = (Store.create 0 0 (codes "/") st).1; wmgr = WatchMgr.init emgr }

unfoldable pub store_read : ℕ → ℕ → Text → Xenstore → Result Text × Xenstore
store_read cid tid path x =
    let (ret, st) = Store.read cid tid path x.st in (ret, record x { st = st })

unfoldable pub store_write : ℕ → ℕ → Text → Text → Xenstore → Status × Xenstore
store_write cid tid path val x =
    let (ret, st) = Store.update cid tid path val x.st in
    elim ret [
      | ok u ↦ (ok u, record { st = st; wmgr = fire_up tid path x.wmgr })
      | err e ↦ (err e, record x { st = st })
    ]

unfoldable pub store_mkdir : ℕ → ℕ → Text → Xenstore → Status × Xenstore
store_mkdir cid tid path x =
    let (ret, st) = Store.create cid tid path x.st in
    elim ret [
      | ok created ↦
          if created
          then (ok tt, record { st = st; wmgr = fire_up tid path x.wmgr })
          else (ok tt, record x { st = st })
      | err e ↦ (err e, record x { st = st })
    ]

unfoldable pub store_dir : ℕ → ℕ → Text → Xenstore → Result (Set Text) × Xenstore
store_dir cid tid path x =
    let (ret, st) = Store.get_children cid tid path x.st in (ret, record x { st = st })

unfoldable pub store_get_perms : ℕ → ℕ → Text → Xenstore → Result PermissionList × Xenstore
store_get_perms cid tid path x =
    let (ret, st) = Store.get_perms cid tid path x.st in (ret, record x { st = st })

unfoldable pub store_set_perms : ℕ → ℕ → Text → PermissionList → Xenstore → Status × Xenstore
store_set_perms cid tid path perms x =
    let (ret, st) = Store.set_perms cid tid path perms x.st in
    elim ret [
      | ok u ↦ (ok u, record { st = st; wmgr = fire_up tid path x.wmgr })
      | err e ↦ (err e, record x { st = st })
    ]

unfoldable pub transaction_start : Xenstore → ℕ × Xenstore
transaction_start x = let (tid, st) = Store.branch x.st in (tid, record x { st = st })

unfoldable pub transaction_end : ℕ → Bool → Xenstore → Status × Xenstore
transaction_end tid true x =
    let (ret, st) = Store.merge tid x.st in
    elim ret [
      | ok success ↦
          if success
          then (ok tt, record { st = st; wmgr = WatchMgr.fire_transaction tid x.wmgr })
          else (err eagain, record { st = st; wmgr = WatchMgr.abort_transaction tid x.wmgr })
      | err e ↦ (err e, record x { st = st })
    ]
transaction_end tid false x =
    let (ret, st) = Store.abort tid x.st in
    elim ret [
      | ok u ↦ (ok u, record { st = st; wmgr = WatchMgr.abort_transaction tid x.wmgr })
      | err e ↦ (err e, record x { st = st })
    ]

-- `sprintf(numstr, "/local/domain/%d", domid)`
unfoldable pub domain_path : ℕ → Text
domain_path domid = codes "/local/domain/" ++ to_string domid

unfoldable pub domain_introduce : Xenstore → Xenstore
domain_introduce x = record x { wmgr = WatchMgr.fire 0 (codes "@introduceDomain") x.wmgr }

unfoldable pub domain_release : Xenstore → Xenstore
domain_release x = record x { wmgr = WatchMgr.fire 0 (codes "@releaseDomain") x.wmgr }

module _ (path_of : ℕ → Text) where
  -- `none` stands for a deletion that does not end.
  unfoldable pub store_rm : ℕ → ℕ → Text → Xenstore → Option (Status × Xenstore)
  store_rm cid tid path x = elim (Store.del cid tid path x.st) [
    | none ↦ none
    | some (ok u, st) ↦ some (
      ok u,
      record { st = st; wmgr = WatchMgr.fire_children path_of tid path (fire_up tid path x.wmgr) },
    )
    | some (err e, st) ↦ some (err e, record x { st = st })
  ]

  unfoldable pub watch_add : ℕ → Xenstore → Xenstore
  watch_add cb x = record x { wmgr = WatchMgr.add path_of cb x.wmgr }

  unfoldable pub watch_del : ℕ → Xenstore → Xenstore
  watch_del cb x = record x { wmgr = WatchMgr.del path_of cb x.wmgr }
