-- ===== src/WatchMgr/Heard.antt =====
-- Which watches a change reaches.
use lixs.Base.{
  ℕ, zero, suc, ◌<◌, ◌≡◌, ◌∙◌, Bool, true, false, ◌&&◌, ◌||◌, List, [], ◌∷◌, ◌++◌, ◌==◌, arith,
  refl, inl, inr, Option-cases, ite, sym,
}
use mathlib.Core.List.{append_assoc, append-nil}
use native.Mathlib.Decide.{ℕ_discrete}
use lixs.Base.Key.{nat_key}
use lixs.Base.Map
use lixs.Base.Map.{Map}
use lixs.Base.Set
use lixs.Base.Set.{Set}
use lixs.Base.Text.{Text, length, text_key, text_dec}
use lixs.EventMgr
use lixs.EventMgr.{EventMgr}
use lixs.Util.{basename}
use lixs.Util.Basename.{parent-lt}
use lixs.Util.Below.{below, below-parent, below-root}
use lixs.WatchMgr.{
  WatchMgr, Event, at, told, enqueue_all, push_events, pending, delay_events, touch, fire_now,
  fire_later, fire_parents_from, fire, fire_parents, fire_children, fire_transaction,
  abort_transaction,
}
use lixs.WatchMgr.Tracks.{Tracks, at-modify}

-- Is there an event that calls `cb` with the path `p`, and looks it up under the key `k`?
abbrev pub heard : Text → ℕ → Text → List Event → Bool
heard k cb p [] = false
heard k cb p (e ∷ es) =
    let rest = heard k cb p es in
    ite (text_dec e.key k) (ite (ℕ_discrete e.cb cb) (ite (text_dec e.path p) true rest) rest) rest

heard-append :
    (k : Text) (cb : ℕ) (p : Text) (es fs : List Event)
    → heard k cb p (es ++ fs) ≡ (heard k cb p es || heard k cb p fs)
heard-append k cb p [] fs = refl
heard-append k cb p (e ∷ es) fs = ground (arith, heard-append k cb p es fs)

heard-told :
    (k : Text) (cb : ℕ) (p key : Text) (path : ℕ → Text) (cbs : Set ℕ)
    → heard k cb p (told key path cbs)
      ≡ ite (text_dec key k) (ite (text_dec (path cb) p) (Set.has cb cbs) false) false
unfolding Set.has
heard-told k cb p key path [] = ground arith
heard-told k cb p key path (c ∷ cbs) = ground (arith, heard-told k cb p key path cbs)

enqueue_all-events :
    (es : List Event) (m : EventMgr Event) → (enqueue_all es m).events ≡ m.events ++ es
unfolding EventMgr.enqueue_event
enqueue_all-events [] m = sym (append-nil m.events)
enqueue_all-events (e ∷ es) m =
    enqueue_all-events es (EventMgr.enqueue_event e m) ∙ append_assoc m.events (e ∷ []) es

abbrev pub queue : WatchMgr → List Event
queue w = w.emgr.events

push-heard :
    (k : Text) (cb : ℕ) (p : Text) (es : List Event) (w : WatchMgr)
    → heard k cb p (queue (push_events es w)) ≡ (heard k cb p (queue w) || heard k cb p es)
unfolding push_events
push-heard k cb p es w = rw (enqueue_all-events es w.emgr) (heard-append k cb p (queue w) es)

-- The same registrations.
abbrev SameDb : WatchMgr → WatchMgr → Type 0
SameDb w w' = (k : Text) → at k w'.db ≡ at k w.db

touch-SameDb : (path : Text) (w : WatchMgr) → SameDb w (touch path w)
touch-SameDb path w k = ground (arith, at-modify path k (λ r. r) w.db)

fire_now-SameDb : (path fp : Text) (w : WatchMgr) → SameDb w (fire_now path fp w)
unfolding fire_now push_events
fire_now-SameDb path fp w k = touch-SameDb path w k

Tracks-SameDb :
    {path_of : ℕ → Text} {ws : Set ℕ} {w w' : WatchMgr}
    → SameDb w w'
    → Tracks path_of ws w
    → Tracks path_of ws w'
Tracks-SameDb same t = record {
  own = λ k c. rw same (t.own k c);
  above = λ k c. rw same (t.above k c);
}

module _ (path_of : ℕ → Text) (ws : Set ℕ) (k : Text) (cb : ℕ) (p : Text) where
  fire_now-heard :
      (path fp : Text) (w : WatchMgr)
      → Tracks path_of ws w
      → heard k cb p (queue (fire_now path fp w)) ≡ (
          heard k cb p (queue w)
          || ite
              (text_dec fp p)
              (ite
                (text_dec (path_of cb) k)
                (ite (text_dec (path_of cb) path) (Set.has cb ws) false)
                false)
              false)
  unfolding fire_now
  fire_now-heard path fp w t =
      push-heard k cb p _ (touch path w)
      ∙ ground (arith, heard-told k cb p path (λ c. fp) (at path w.db).path, t.own path cb)

  fire_parents-heard :
      (f : ℕ) (path fp : Text) (w : WatchMgr)
      → length path < f
      → Tracks path_of ws w
      → (heard k cb p (queue (fire_parents_from (λ q. fire_now q fp) f path w)) ≡ (
          heard k cb p (queue w)
          || ite
              (text_dec fp p)
              (ite (text_dec (path_of cb) k) (Set.has cb ws && below (path_of cb) path) false)
              false))
        × Tracks path_of ws (fire_parents_from (λ q. fire_now q fp) f path w)
  unfolding fire_parents_from
  fire_parents-heard zero path fp w h t = absurd (omega arith)
  fire_parents-heard (suc f) path fp w h t = elim (Option-cases (basename path)) [
    | inl up ↦ rw (up, fire_parents_from) (ground (arith, below-root (path_of cb) path up), t)
    | inr ((q, n), up) ↦
        let (ih, t') =
          fire_parents-heard f q fp (fire_now q fp w) (omega (arith, parent-lt path up))
            (Tracks-SameDb (fire_now-SameDb q fp w) t) in
        rw (up, fire_parents_from)
          (ground (arith, ih, fire_now-heard q fp w t, below-parent (path_of cb) path up), t')
  ]

  -- `fire` and `fire_parents` outside of a transaction.
  pub fire_up-heard :
      (path : Text) (w : WatchMgr)
      → Tracks path_of ws w
      → (heard k cb p (queue (fire_parents 0 path (fire 0 path w))) ≡ (
          heard k cb p (queue w)
          || ite
              (text_dec path p)
              (ite
                (text_dec (path_of cb) k)
                (Set.has cb ws && (ite (text_dec (path_of cb) path) true (below (path_of cb) path)))
                false)
              false))
        × Tracks path_of ws (fire_parents 0 path (fire 0 path w))
  unfolding fire fire_parents
  fire_up-heard path w t =
      let t' = Tracks-SameDb (fire_now-SameDb path path w) t in
      let (up, t'') =
        fire_parents-heard (suc (length path)) path path (fire_now path path w) (omega arith) t' in
      (ground (arith, up, fire_now-heard path path w t), t'')

  pub fire_children-heard :
      (path : Text) (w : WatchMgr)
      → Tracks path_of ws w
      → heard k cb p (queue (fire_children path_of 0 path w)) ≡ (
          heard k cb p (queue w)
          || ite
              (text_dec path k)
              (ite (text_dec (path_of cb) p) (Set.has cb ws && below path (path_of cb)) false)
              false)
  unfolding fire_children
  fire_children-heard path w t =
      push-heard k cb p _ (touch path w)
      ∙ ground (arith, heard-told k cb p path path_of (at path w.db).children, t.above path cb)

-- In a transaction nothing is queued: the events wait with its id.
fire_later-queue :
    (tid : ℕ) (path fp : Text) (w : WatchMgr) → queue (fire_later tid path fp w) ≡ queue w
unfolding fire_later delay_events
fire_later-queue tid path fp w = refl

fire_parents_later-queue :
    (tid f : ℕ) (path fp : Text) (w : WatchMgr)
    → queue (fire_parents_from (λ q. fire_later tid q fp) f path w) ≡ queue w
unfolding fire_parents_from
fire_parents_later-queue tid zero path fp w = refl
fire_parents_later-queue tid (suc f) path fp w = elim (Option-cases (basename path)) [
  | inl up ↦ rw (up, fire_parents_from)
  | inr ((q, n), up) ↦
      rw (up, fire_parents_from)
        (fire_parents_later-queue tid f q fp (fire_later tid q fp w) ∙ fire_later-queue tid q fp w)
]

pub fire_up-queue :
    (tid : ℕ) (path : Text) (w : WatchMgr)
    → (tid == 0) ≡ false
    → queue (fire_parents tid path (fire tid path w)) ≡ queue w
unfolding fire fire_parents
fire_up-queue tid path w in_trans = rw in_trans (
    fire_parents_later-queue tid (suc (length path)) path path _ ∙ fire_later-queue tid path path w)

-- The end of a transaction: its events join the queue in order, or are dropped.
pub fire_transaction-queue :
    (tid : ℕ) (w : WatchMgr) → queue (fire_transaction tid w) ≡ queue w ++ pending tid w
unfolding fire_transaction push_events
fire_transaction-queue tid w = enqueue_all-events (pending tid w) w.emgr

pub end-pending :
    (tid : ℕ) (w : WatchMgr)
    → (pending tid (fire_transaction tid w) ≡ []) × (pending tid (abort_transaction tid w) ≡ [])
unfolding fire_transaction abort_transaction push_events pending
end-pending tid w = ground (arith, Map.find-erase tid tid w.tdb)
