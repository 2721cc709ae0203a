-- ===== src/UnixSockServer/Setup.antt =====
-- lib/lixs/unix_sock_server.cc: the constructor, `bind_socket` and the destructor of the server. What
-- the calls of the system return is an argument; an `unlink` whose result is not looked at is taken
-- to remove the path, and `sun_size` is the size of `sun_path`.
use lixs.Base.{ℕ, ◌-◌, Bool, Option, none, some, List, [], ◌∷◌, if◌then◌else◌}
use lixs.Base.Text.{Text, take}
use lixs.SockConn.Setup
use lixs.SockConn.Setup.{Sock}
use lixs.System.{
  System, Built, built, throws, unix_sock_server_error, open_fd, close_fd, watch, unwatch,
  bind_path, unlink_path,
}

pub data Unlinked : Type 0 where
  unlinks no_entry unlink_fails : Unlinked

-- What `socket`, `unlink`, `bind` and `listen` return.
pub record SocketCalls : Type 0 where
  pub socket : Option ℕ
  pub unlink : Unlinked
  pub bind : Bool
  pub listen : Bool

-- What the server holds.
pub record Sockets : Type 0 where
  pub rw_path : Text
  pub ro_path : Text
  pub rw_fd : ℕ
  pub ro_fd : ℕ

-- After the path is free.
abbrev pub bind_free : SocketCalls → ℕ → Text → System → Option ℕ × System
bind_free c fd path s =
    if c.bind then (if c.listen then some fd else none, bind_path path s) else (none, s)

abbrev pub bind_unlinked : SocketCalls → Unlinked → ℕ → Text → System → Option ℕ × System
bind_unlinked c unlinks fd path s = bind_free c fd path (unlink_path path s)
bind_unlinked c no_entry fd path s = bind_free c fd path s
bind_unlinked c unlink_fails fd path s = (none, s)

abbrev pub bind_opened : SocketCalls → Option ℕ → Text → System → Option ℕ × System
bind_opened c none path s = (none, s)
bind_opened c (some fd) path s = bind_unlinked c c.unlink fd path (open_fd fd s)

abbrev pub bound_ro : Text → Text → ℕ → Option ℕ × System → Built Sockets × System
bound_ro rw_path ro_path rw_fd (none, s) =
    (throws unix_sock_server_error, unlink_path rw_path (close_fd rw_fd s))
bound_ro rw_path ro_path rw_fd (some ro_fd, s) = (
  built (record { rw_path = rw_path; ro_path = ro_path; rw_fd = rw_fd; ro_fd = ro_fd }),
  watch ro_fd (watch rw_fd s),
)

module _ (sun_size : ℕ) where
  -- `none` is -1.
  unfoldable pub bind_socket : SocketCalls → Text → System → Option ℕ × System
  bind_socket c path s = bind_opened c c.socket (take (sun_size - 1) path) s

  abbrev pub bound_rw : SocketCalls → Text → Text → Option ℕ × System → Built Sockets × System
  bound_rw ro rw_path ro_path (none, s) = (throws unix_sock_server_error, s)
  bound_rw ro rw_path ro_path (some rw_fd, s) =
      bound_ro rw_path ro_path rw_fd (bind_socket ro ro_path s)

  unfoldable pub unix_sock_server :
      SocketCalls → SocketCalls → Text → Text → System → Built Sockets × System
  unix_sock_server rw ro rw_path ro_path s = bound_rw ro rw_path ro_path (bind_socket rw rw_path s)

-- `delete c.second` for each of the clients
unfoldable pub close_clients : List (ℕ × Sock) → System → System
close_clients [] s = s
close_clients ((id, c) ∷ cs) s = close_clients cs (Setup.close c s)

-- The destructor.
unfoldable pub close : List (ℕ × Sock) → Sockets → System → System
close clients h s =
    let s' = unlink_path h.rw_path (close_fd h.rw_fd (unwatch h.rw_fd (close_clients clients s))) in
    unlink_path h.ro_path (close_fd h.ro_fd (unwatch h.ro_fd s'))
