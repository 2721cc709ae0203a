-- ===== src/Epoll.antt =====
-- inc/lixs/os_linux/epoll.hh and lib/lixs/os_linux/epoll.cc: the multiplexer of descriptors. The calls
-- of `epoll_ctl` are a log, and what `epoll_wait` returns is an argument. `CB` are the callbacks.
pub mod Mirror
use lixs.Base.{ℕ, Bool, true, false, Option, none, some, List, [], ◌∷◌}
use lixs.Base.Key.{nat_key}
use lixs.Base.Map
use lixs.Base.Map.{Map}
use lixs.EventMgr
use lixs.EventMgr.{EventMgr}

pub data Ctl : Type 0 where
  ctl_add ctl_mod : ℕ → Bool → Bool → Ctl
  ctl_del : ℕ → Ctl

-- `epoll`, and its calls of `epoll_ctl`, the last one first.
pub record Epoll (CB : Type 0) : Type 0 where
  pub callbacks : Map ℕ CB
  pub ctl : List Ctl

-- What the event manager is given: a callback bound to what is ready, or `handle`.
pub data Event (CB : Type 0) : Type 0 where
  calls : CB → Bool → Bool → Bool → Event CB
  handles : Event CB

-- An element of `epev`, whose pointer is to the callback in the map at a descriptor.
pub record Ready : Type 0 where
  pub fd : ℕ
  pub read : Bool
  pub write : Bool
  pub error : Bool

module _ {CB : Type 0} where
  unfoldable pub epoll : EventMgr (Event CB) → Epoll CB × EventMgr (Event CB)
  epoll emgr = (record { callbacks = []; ctl = [] }, EventMgr.enqueue_event handles emgr)

  unfoldable pub add : ℕ → Bool → Bool → CB → Epoll CB → Epoll CB
  add fd read write cb e = elim (Map.find fd e.callbacks) [
    | none ↦ record { callbacks = Map.put fd cb e.callbacks; ctl = ctl_add fd read write ∷ e.ctl }
    | some old ↦ e
  ]

  unfoldable pub set : ℕ → Bool → Bool → Epoll CB → Epoll CB
  set fd read write e = elim (Map.find fd e.callbacks) [
    | none ↦ e
    | some cb ↦ record e { ctl = ctl_mod fd read write ∷ e.ctl }
  ]

  unfoldable pub rem : ℕ → Epoll CB → Epoll CB
  rem fd e = elim (Map.find fd e.callbacks) [
    | none ↦ e
    | some cb ↦ record { callbacks = Map.erase fd e.callbacks; ctl = ctl_del fd ∷ e.ctl }
  ]

  -- The loop over the events; `none` is the use of a callback that is no longer in the map.
  unfoldable pub enqueue_ready :
      List Ready → Epoll CB → EventMgr (Event CB) → Option (EventMgr (Event CB))
  enqueue_ready [] e emgr = some emgr
  enqueue_ready (r ∷ rs) e emgr = elim (Map.find r.fd e.callbacks) [
    | none ↦ none
    | some cb ↦ enqueue_ready rs e (EventMgr.enqueue_event (calls cb r.read r.write r.error) emgr)
  ]

  abbrev pub once_more : Option (EventMgr (Event CB)) → Option (EventMgr (Event CB))
  once_more none = none
  once_more (some emgr) = some (EventMgr.enqueue_event handles emgr)

  unfoldable pub handle : List Ready → Epoll CB → EventMgr (Event CB) → Option (EventMgr (Event CB))
  handle epev e emgr = once_more (enqueue_ready epev e emgr)
