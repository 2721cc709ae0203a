-- ===== src/WatchMgr/Tracks.antt =====
-- The registrations, against the set of the watches that are registered.
use lixs.Base.{
  ℕ, zero, suc, ◌<◌, ◌≡◌, true, false, ◌&&◌, none, some, [], ◌∷◌, ◌==◌, if◌then◌else◌, arith, refl,
  inl, inr, Option-cases, ite,
}
use lixs.Base.Key.{nat_key}
use lixs.Base.Map
use lixs.Base.Map.{Map}
use lixs.Base.Set
use lixs.Base.Set.{Set}
use lixs.Base.Text.{Text, length, text_key, text_dec}
use lixs.Util.{basename}
use lixs.Util.Basename.{parent-lt}
use lixs.Util.Below.{below, below-parent, below-root}
use lixs.EventMgr.{EventMgr}
use lixs.WatchMgr.{
  Watchers, WatchMgr, Event, init, at, modify, prune, watch_path, watch_children, unwatch_path,
  unwatch_children, register_from, register_with_parents, unregister_from, unregister_from_parents,
  push_events, add, del, callback,
}

pub at-modify :
    (k j : Text) (f : Watchers → Watchers) (db : Map Text Watchers)
    → at j (modify k f db) ≡ ite (text_dec k j) (f (at k db)) (at j db)
unfolding at modify
at-modify k j f db = ground (arith, Map.find-put k j (f (at k db)) db)

at-erase :
    (k j : Text) (db : Map Text Watchers)
    → at j (Map.erase k db) ≡ ite (text_dec k j) (record { path = []; children = [] }) (at j db)
unfolding at
at-erase k j db = ground (arith, Map.find-erase k j db)

is_empty-nil : (s : Set ℕ) → Set.is_empty s ≡ true → s ≡ []
is_empty-nil [] e = refl
is_empty-nil (x ∷ s) e = cc

-- A record that is empty reads like one that is missing.
at-prune : (k j : Text) (db : Map Text Watchers) → at j (prune k db) ≡ at j db
unfolding prune
at-prune k j db =
    ground (arith, at-erase k j db, is_empty-nil (at k db).path, is_empty-nil (at k db).children)

-- After `register_with_parents` the watch is among the children of every path above.
register_from-at :
    (f : ℕ) (path : Text) (cb c : ℕ) (k : Text) (db : Map Text Watchers)
    → length path < f
    → ((at k (register_from f path cb db)).path ≡ (at k db).path)
      × (Set.has c (at k (register_from f path cb db)).children
          ≡ (if below k path && cb == c then true else Set.has c (at k db).children))
unfolding register_from
register_from-at zero path cb c k db h = absurd (omega arith)
register_from-at (suc f) path cb c k db h = elim (Option-cases (basename path)) [
  | inl up ↦ rw (up, register_from) (ground (arith, below-root k path up))
  | inr ((p, n), up) ↦
      rw (up, register_from)
        (ground (
          arith,
          register_from-at f p cb c k (modify p (watch_children cb) db),
          parent-lt path up,
          below-parent k path up,
          at-modify p k (watch_children cb) db,
          Set.has-insert cb c (at p db).children,
        ))
]

unregister_from-at :
    (f : ℕ) (path : Text) (cb c : ℕ) (k : Text) (db : Map Text Watchers)
    → length path < f
    → ((at k (unregister_from f path cb db)).path ≡ (at k db).path)
      × (Set.has c (at k (unregister_from f path cb db)).children
          ≡ (if below k path && cb == c then false else Set.has c (at k db).children))
unfolding unregister_from
unregister_from-at zero path cb c k db h = absurd (omega arith)
unregister_from-at (suc f) path cb c k db h = elim (Option-cases (basename path)) [
  | inl up ↦ rw (up, unregister_from) (ground (arith, below-root k path up))
  | inr ((p, n), up) ↦
      rw (up, unregister_from)
        (ground (
          arith,
          unregister_from-at f p cb c k (prune p (modify p (unwatch_children cb) db)),
          parent-lt path up,
          below-parent k path up,
          at-prune p k (modify p (unwatch_children cb) db),
          at-modify p k (unwatch_children cb) db,
          Set.has-erase cb c (at p db).children,
        ))
]

-- The database holds exactly the registrations of the watches in `ws`: each is listed at its own
-- path, and among the children of every path above that.
pub record Tracks (path_of : ℕ → Text) (ws : Set ℕ) (w : WatchMgr) : Type 0 where
  pub own :
      (k : Text) (c : ℕ)
      → Set.has c (at k w.db).path ≡ ite (text_dec (path_of c) k) (Set.has c ws) false
  pub above :
      (k : Text) (c : ℕ) → Set.has c (at k w.db).children ≡ (Set.has c ws && below k (path_of c))

pub Tracks-init : (path_of : ℕ → Text) (emgr : EventMgr Event) → Tracks path_of [] (init emgr)
unfolding at Map.find Set.has
Tracks-init path_of emgr = record { own = λ k c. ground arith; above = λ k c. refl }

module _ (path_of : ℕ → Text) (cb : ℕ) (ws : Set ℕ) (w : WatchMgr) (t : Tracks path_of ws w) where
  -- Where the database holds exactly the registrations of the watches in `ws`, after `add` it holds
  -- exactly those of `ws` and the added watch.
  pub add-Tracks : Tracks path_of (Set.insert cb ws) (add path_of cb w)
  unfolding add push_events register_with_parents
  add-Tracks =
      let watched = modify (path_of cb) (watch_path cb) w.db in
      record {
        own = λ k c. ground (
          arith,
          register_from-at (suc (length (path_of cb))) (path_of cb) cb c k watched,
          at-modify (path_of cb) k (watch_path cb) w.db,
          Set.has-insert cb c (at (path_of cb) w.db).path,
          Set.has-insert cb c ws,
          t.own k c,
        );
        above = λ k c. ground (
          arith,
          register_from-at (suc (length (path_of cb))) (path_of cb) cb c k watched,
          at-modify (path_of cb) k (watch_path cb) w.db,
          Set.has-insert cb c ws,
          t.above k c,
        );
      }

  -- Where the database holds exactly the registrations of the watches in `ws`, after `del` it holds
  -- exactly those of `ws` without the deleted watch.
  pub del-Tracks : Tracks path_of (Set.erase cb ws) (del path_of cb w)
  unfolding del unregister_from_parents
  del-Tracks =
      let unwatched = modify (path_of cb) (unwatch_path cb) w.db in
      record {
        own = λ k c. ground (
          arith,
          unregister_from-at (suc (length (path_of cb))) (path_of cb) cb c k
              (prune (path_of cb) unwatched),
          at-prune (path_of cb) k unwatched,
          at-modify (path_of cb) k (unwatch_path cb) w.db,
          Set.has-erase cb c (at (path_of cb) w.db).path,
          Set.has-erase cb c ws,
          t.own k c,
        );
        above = λ k c. ground (
          arith,
          unregister_from-at (suc (length (path_of cb))) (path_of cb) cb c k
              (prune (path_of cb) unwatched),
          at-prune (path_of cb) k unwatched,
          at-modify (path_of cb) k (unwatch_path cb) w.db,
          Set.has-erase cb c ws,
          t.above k c,
        );
      }

-- Where the database holds exactly the registrations of the watches in `ws`, a queued event reaches
-- its callback, with its path, if that is in `ws` and its own path is the event's key or lies below
-- it, and calls nothing otherwise.
pub callback-reached :
    (path_of : ℕ → Text) (ws : Set ℕ) (w : WatchMgr) (e : Event)
    → Tracks path_of ws w
    → callback e w ≡ (
        if Set.has e.cb ws && ite (text_dec (path_of e.cb) e.key) true (below e.key (path_of e.cb))
        then some (e.cb, e.path)
        else none)
unfolding callback at
callback-reached path_of ws w e t =
    ground (arith, t.own e.key e.cb, t.above e.key e.cb, Set.has-nil e.cb)
