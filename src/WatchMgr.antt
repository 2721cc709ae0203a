-- ===== src/WatchMgr.antt =====
-- lib/lixs/watch_mgr.cc: who is told of a change. A `watch_cb*` is the address of a client's
-- callback object, and `path_of` gives the constant `path` of the object at an address. An event is
-- the call of `callback` that the source binds.
pub mod Tracks
pub mod Heard
use lixs.Base.{
  ℕ, zero, suc, Bool, true, false, ◌&&◌, ◌||◌, Option, none, some, List, [], ◌∷◌, ◌++◌, ◌==◌,
  if◌then◌else◌,
}
use lixs.Base.Key.{nat_key}
use lixs.Base.Map
use lixs.Base.Map.{Map}
use lixs.Base.Set
use lixs.Base.Set.{Set}
use lixs.Base.Text.{Text, length, text_key}
use lixs.EventMgr
use lixs.EventMgr.{EventMgr}
use lixs.Util.{basename}

pub record Watchers : Type 0 where
  pub path : Set ℕ
  pub children : Set ℕ

pub record Event : Type 0 where
  pub key : Text
  pub cb : ℕ
  pub path : Text

pub record WatchMgr : Type 0 where
  pub emgr : EventMgr Event
  pub db : Map Text Watchers
  pub tdb : Map ℕ (List Event)

abbrev pub init : EventMgr Event → WatchMgr
init emgr = record { emgr = emgr; db = []; tdb = [] }

abbrev or_none : Option Watchers → Watchers
or_none none = record { path = []; children = [] }
or_none (some r) = r

-- The record that `db[path]` refers to.
unfoldable pub at : Text → Map Text Watchers → Watchers
at path db = or_none (Map.find path db)

-- `db[path]`, changed; a missing record is created.
unfoldable pub modify : Text → (Watchers → Watchers) → Map Text Watchers → Map Text Watchers
modify path f db = Map.put path (f (at path db)) db

abbrev pub watch_path : ℕ → Watchers → Watchers
watch_path cb r = record r { path = Set.insert cb r.path }

abbrev pub watch_children : ℕ → Watchers → Watchers
watch_children cb r = record r { children = Set.insert cb r.children }

abbrev pub unwatch_path : ℕ → Watchers → Watchers
unwatch_path cb r = record r { path = Set.erase cb r.path }

abbrev pub unwatch_children : ℕ → Watchers → Watchers
unwatch_children cb r = record r { children = Set.erase cb r.children }

-- `if (rec.path.empty() && rec.children.empty()) db.erase(path)`
unfoldable pub prune : Text → Map Text Watchers → Map Text Watchers
prune path db =
    if Set.is_empty (at path db).path && Set.is_empty (at path db).children
    then Map.erase path db
    else db

-- The fuel bounds the walk to the root.
unfoldable pub register_from : ℕ → Text → ℕ → Map Text Watchers → Map Text Watchers
register_from zero path cb db = db
register_from (suc fuel) path cb db = elim (basename path) [
  | none ↦ db
  | some (parent, name) ↦ register_from fuel parent cb (modify parent (watch_children cb) db)
]

unfoldable pub register_with_parents : Text → ℕ → Map Text Watchers → Map Text Watchers
register_with_parents path cb db = register_from (suc (length path)) path cb db

unfoldable pub unregister_from : ℕ → Text → ℕ → Map Text Watchers → Map Text Watchers
unregister_from zero path cb db = db
unregister_from (suc fuel) path cb db = elim (basename path) [
  | none ↦ db
  | some (parent, name) ↦
      unregister_from fuel parent cb (prune parent (modify parent (unwatch_children cb) db))
]

unfoldable pub unregister_from_parents : Text → ℕ → Map Text Watchers → Map Text Watchers
unregister_from_parents path cb db = unregister_from (suc (length path)) path cb db

abbrev enqueue_all : List Event → EventMgr Event → EventMgr Event
enqueue_all [] m = m
enqueue_all (e ∷ es) m = enqueue_all es (EventMgr.enqueue_event e m)

-- The calls of `callback` that the loops over a set of watches bind.
abbrev pub told : Text → (ℕ → Text) → Set ℕ → List Event
told key path [] = []
told key path (cb ∷ cbs) = record { key = key; cb = cb; path = path cb } ∷ told key path cbs

unfoldable pub push_events : List Event → WatchMgr → WatchMgr
push_events es w = record w { emgr = enqueue_all es w.emgr }

abbrev or_empty : Option (List Event) → List Event
or_empty none = []
or_empty (some l) = l

-- `tdb[tid]`, the list of events that wait for the end of a transaction.
unfoldable pub pending : ℕ → WatchMgr → List Event
pending tid w = or_empty (Map.find tid w.tdb)

unfoldable pub delay_events : ℕ → List Event → WatchMgr → WatchMgr
delay_events tid es w = record w { tdb = Map.put tid (pending tid w ++ es) w.tdb }

-- `db[path]`, for its effect of creating a missing record.
abbrev pub touch : Text → WatchMgr → WatchMgr
touch path w = record w { db = modify path (λ r. r) w.db }

unfoldable pub fire_now : Text → Text → WatchMgr → WatchMgr
fire_now path fire_path w =
    push_events (told path (λ cb. fire_path) (at path w.db).path) (touch path w)

unfoldable pub fire_later : ℕ → Text → Text → WatchMgr → WatchMgr
fire_later tid path fire_path w =
    delay_events tid (told path (λ cb. fire_path) (at path w.db).path) (touch path w)

unfoldable pub fire_parents_from : (Text → WatchMgr → WatchMgr) → ℕ → Text → WatchMgr → WatchMgr
fire_parents_from fire zero path w = w
fire_parents_from fire (suc fuel) path w = elim (basename path) [
  | none ↦ w
  | some (parent, name) ↦ fire_parents_from fire fuel parent (fire parent w)
]

unfoldable pub fire : ℕ → Text → WatchMgr → WatchMgr
fire tid path w = if tid == 0 then fire_now path path w else fire_later tid path path w

unfoldable pub fire_parents : ℕ → Text → WatchMgr → WatchMgr
fire_parents tid path w =
    if tid == 0
    then fire_parents_from (λ p. fire_now p path) (suc (length path)) path w
    else fire_parents_from (λ p. fire_later tid p path) (suc (length path)) path w

unfoldable pub fire_transaction : ℕ → WatchMgr → WatchMgr
fire_transaction tid w = record (push_events (pending tid w) w) { tdb = Map.erase tid w.tdb }

unfoldable pub abort_transaction : ℕ → WatchMgr → WatchMgr
abort_transaction tid w = record w { tdb = Map.erase tid w.tdb }

-- Whether the bound call reaches the client's callback.
unfoldable pub callback : Event → WatchMgr → Option (ℕ × Text)
callback e w = elim (Map.find e.key w.db) [
  | none ↦ none
  | some r ↦ if Set.has e.cb r.path || Set.has e.cb r.children then some (e.cb, e.path) else none
]

module _ (path_of : ℕ → Text) where
  unfoldable pub fire_children : ℕ → Text → WatchMgr → WatchMgr
  fire_children tid path w =
      let es = told path path_of (at path w.db).children in
      if tid == 0 then push_events es (touch path w) else delay_events tid es (touch path w)

  unfoldable pub add : ℕ → WatchMgr → WatchMgr
  add cb w =
      let watched = modify (path_of cb) (watch_path cb) w.db in
      push_events (record { key = path_of cb; cb = cb; path = path_of cb } ∷ [])
        (record w { db = register_with_parents (path_of cb) cb watched })

  unfoldable pub del : ℕ → WatchMgr → WatchMgr
  del cb w =
      let left = prune (path_of cb) (modify (path_of cb) (unwatch_path cb) w.db) in
      record w { db = unregister_from_parents (path_of cb) cb left }
