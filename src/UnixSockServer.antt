-- ===== src/UnixSockServer.antt =====
-- inc/lixs/unix_sock_server.hh and lib/lixs/unix_sock_server.cc: the server of the sockets. What
-- `accept` returns is an argument, and `make_client` is the constructor of a client from its id and its
-- descriptor, `none` where it throws. An id is of 64 bits. The constructor and the destructor of the
-- server are in UnixSockServer/Setup.
pub mod Setup
pub mod Lifetime
pub mod Ids
use lixs.Base.{ℕ, ◌+◌, ◌%◌, ◌^◌, Bool, Option, none, some, List, [], ◌∷◌, if◌then◌else◌}
use lixs.Base.Key.{nat_key}
use lixs.Base.Map
use lixs.Base.Map.{Map}

-- `unix_sock_server`, and the descriptors that it took out of the multiplexer, the last one first.
pub record UnixSockServer (C : Type 0) : Type 0 where
  pub clients : Map ℕ C
  pub next_id : ℕ
  pub removed : List ℕ

module _ {C : Type 0} where
  -- `clients.insert`, which keeps what is there.
  abbrev pub insert_client : ℕ → C → Map ℕ C → Map ℕ C
  insert_client id client clients = elim (Map.find id clients) [
    | none ↦ Map.put id client clients
    | some old ↦ clients
  ]

  abbrev pub inserted : Option C → UnixSockServer C → Option (UnixSockServer C)
  inserted none s = none
  inserted (some client) s = some (record s {
    clients = insert_client s.next_id client s.clients;
    next_id = (s.next_id + 1) % 2 ^ 64;
  })

  unfoldable pub client_dead : ℕ → UnixSockServer C → UnixSockServer C
  client_dead id s = record s { clients = Map.erase id s.clients }

module _ {C : Type 0} (make_client : ℕ → ℕ → Option C) where
  abbrev pub accepted : ℕ → Option ℕ → UnixSockServer C → Option (UnixSockServer C)
  accepted fd none s = some (record s { removed = fd ∷ s.removed })
  accepted fd (some client_fd) s = inserted (make_client s.next_id client_fd) s

  -- `none` is an exception that leaves the callback.
  unfoldable pub callback :
      Bool → Bool → Bool → ℕ → Option ℕ → UnixSockServer C → Option (UnixSockServer C)
  callback read write error fd client_fd s =
      if error then some (record s { removed = fd ∷ s.removed }) else accepted fd client_fd s
