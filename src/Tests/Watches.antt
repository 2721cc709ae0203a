-- ===== src/Tests/Watches.antt =====
-- Two watches, and the operations of clients that set them off.
use lixs.Base.{ℕ, ◌≡◌, true, false, none, some, [], ◌&&◌, ◌||◌, ite, if◌then◌else◌, ◌==◌}
use lixs.Base.Key.{nat_key}
use lixs.Base.Set
use lixs.Base.Set.{Set}
use lixs.Base.Text.{Text, codes, text_dec}
use lixs.Errno.{ok}
use lixs.EventMgr
use lixs.Mstore.Store
use lixs.Mstore.Database.{Database}
use lixs.Mstore.Database.Sound.{IsSound-nil}
use lixs.Mstore.SimpleAccess
use lixs.Mstore.SimpleAccess.Create.{Created, create-Created}
use lixs.Mstore.SimpleAccess.Pruned.{dom0_writes}
use lixs.Mstore.SimpleAccess.Reads.{read-del}
use lixs.Util.Below.{below}
use lixs.WatchMgr.{WatchMgr, Event, init, add, del, callback}
use lixs.WatchMgr.Heard.{heard, queue}
use lixs.WatchMgr.Tracks.{Tracks, Tracks-init, add-Tracks, del-Tracks, callback-reached}
use lixs.Xenstore.{Xenstore, store_write, store_rm}
use lixs.Xenstore.Watches.{is_ok, watches, store_write-heard, store_rm-heard}

-- Callback 1 watches `/a`, and every other one `/a/b`.
abbrev path_of : ℕ → Text
path_of n = if n == 1 then codes "/a" else codes "/a/b"

abbrev idle : WatchMgr
idle = init EventMgr.init

add-Tracks_example : Tracks path_of (Set.insert 1 []) (add path_of 1 idle)
add-Tracks_example = add-Tracks path_of 1 [] idle (Tracks-init path_of EventMgr.init)

abbrev one : WatchMgr
one = add path_of 1 idle

abbrev both : WatchMgr
both = add path_of 2 one

abbrev ws : Set ℕ
ws = Set.insert 2 (Set.insert 1 [])

both-Tracks : Tracks path_of ws both
both-Tracks =
    add-Tracks path_of 2 (Set.insert 1 []) one
      (add-Tracks path_of 1 [] idle (Tracks-init path_of EventMgr.init))

del-Tracks_example : Tracks path_of (Set.erase 1 ws) (del path_of 1 both)
del-Tracks_example = del-Tracks path_of 1 ws both both-Tracks

abbrev stale : Event
stale = record { key = codes "/a"; cb = 1; path = codes "/a" }

abbrev store : Xenstore
store = record { st = Store.init; wmgr = both }

abbrev lower : Text
lower = codes "/a/b"

abbrev key : Text
key = codes "/a"

store_write-heard_example : heard key 1 lower (queue (store_write 0 0 lower [] store).1.wmgr) ≡ (
    heard key 1 lower (queue both)
    || (is_ok (Store.update 0 0 lower [] store.st).0
        && ite
            (text_dec lower lower)
            (ite (text_dec (path_of 1) key) (watches path_of ws 1 lower) false)
            false))
store_write-heard_example = store_write-heard path_of ws key 1 lower 0 lower [] store both-Tracks

made-Created : Created lower [] (SimpleAccess.create 0 lower [])
made-Created = create-Created 0 lower [] IsSound-nil

abbrev full : Database
full = (SimpleAccess.create 0 lower []).1

abbrev made_store : Xenstore
made_store = record { st = record { db = full; next_tid = 1; trans = [] }; wmgr = both }

removed :
    (db : Database) × (Store.del 0 0 lower made_store.st
      ≡ some (ok tt, record made_store.st { db = db }))
unfolding Store.del Store.strip
removed =
    let (db, ran, after) =
      read-del 0 lower full made-Created.grown.sound made-Created.grown.here (dom0_writes _) in
    (db, rw ran)

store_rm-heard_example :
    (x' : Xenstore) × (store_rm path_of 0 0 lower made_store ≡ some (ok tt, x'))
    × (x'.st ≡ record made_store.st { db = removed.0 })
    × (heard key 1 lower (queue x'.wmgr) ≡ (
        heard key 1 lower (queue both)
        || ite
            (text_dec lower lower)
            (ite (text_dec (path_of 1) key) (watches path_of ws 1 lower) false)
            false
        || ite
            (text_dec lower key)
            (ite (text_dec (path_of 1) lower) (Set.has 1 ws && below lower (path_of 1)) false)
            false))
store_rm-heard_example =
    store_rm-heard path_of ws key 1 lower 0 lower (record made_store.st { db = removed.0 })
      made_store both-Tracks removed.1

callback-reached_example : callback stale both ≡ (
    if Set.has 1 ws && ite (text_dec (path_of 1) stale.key) true (below stale.key (path_of 1))
    then some (1, stale.path)
    else none)
callback-reached_example = callback-reached path_of ws both stale both-Tracks
