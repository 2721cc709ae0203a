-- ===== src/Conn.antt =====
-- What the connections of lib/lixs/ring_conn.cc and lib/lixs/sock_conn.cc keep, and what they ask of
-- the rest of the program: `io.set` and `io.rem` of inc/lixs/iomux.hh, and `conn_dead`.
pub mod Once
use lixs.Base.{Bool, true, false, List, [], ◌∷◌}

pub data Action : Type 0 where
  io_set : Bool → Bool → Action
  io_rem conn_dead : Action

-- The calls that were made, the last one first.
pub record Link : Type 0 where
  pub ev_read : Bool
  pub ev_write : Bool
  pub alive : Bool
  pub actions : List Action

-- The initializers of the constructors.
abbrev pub new_link : Link
new_link = record { ev_read = false; ev_write = false; alive = true; actions = [] }

-- `ev_read = …; io.set(fd, ev_read, ev_write);`
abbrev pub set_read : Bool → Link → Link
set_read ev c = record c { ev_read = ev; actions = io_set ev c.ev_write ∷ c.actions }

abbrev pub set_write : Bool → Link → Link
set_write ev c = record c { ev_write = ev; actions = io_set c.ev_read ev ∷ c.actions }

-- `alive = false; io.rem(fd); conn_dead();`
abbrev pub die : Link → Link
die c = record c { alive = false; actions = conn_dead ∷ io_rem ∷ c.actions }
