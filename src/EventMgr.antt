-- ===== src/EventMgr.antt =====
-- lib/lixs/event_mgr.cc: a queue of callbacks. What a callback does to the queue and to the rest of
-- the program is the parameter `handle`.
use lixs.Base.{ℕ, zero, suc, Bool, true, false, Option, none, some, List, [], ◌∷◌, ◌++◌}

pub record EventMgr (E : Type 0) : Type 0 where
  pub active : Bool
  pub events : List E

module _ {E : Type 0} where
  abbrev pub init : EventMgr E
  init = record { active = false; events = [] }

  unfoldable pub enable : EventMgr E → EventMgr E
  enable m = record m { active = true }

  unfoldable pub disable : EventMgr E → EventMgr E
  disable m = record m { active = false }

  unfoldable pub enqueue_event : E → EventMgr E → EventMgr E
  enqueue_event cb m = record m { events = m.events ++ cb ∷ [] }

  -- `events.erase(it)`, where `it` is at the front: the loop erases what it has called.
  abbrev erase_front : EventMgr E → EventMgr E
  erase_front m = record m { events = tail_of m.events }
    where
      tail_of : List E → List E
      tail_of [] = []
      tail_of (e ∷ es) = es

module _ {E S : Type 0} (handle : E → EventMgr E × S → EventMgr E × S) where
  -- The fuel bounds the calls of one run; `none` means that it ran out.
  unfoldable pub run : ℕ → EventMgr E × S → Option (EventMgr E × S)
  run zero w = none
  run (suc fuel) (m, s) = elim m.active [
    | false ↦ some (m, s)
    | true ↦ elim m.events [
      | [] ↦ some (m, s)
      | e ∷ es ↦ let (m', s') = handle e (m, s) in run fuel (erase_front m', s')
    ]
  ]
