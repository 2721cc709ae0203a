-- ===== src/SockConn/Setup.antt =====
-- lib/lixs/sock_conn.cc: the constructor and the destructor of a connection over a socket.
use lixs.Base.{ℕ, Bool, if◌then◌else◌}
use lixs.Conn.{Link, new_link}
use lixs.System.{System, Built, built, throws, sock_conn_error, close_fd, watch, unwatch}

pub record Sock : Type 0 where
  pub link : Link
  pub fd : ℕ

-- Whether `fcntl` sets `O_NONBLOCK` is an argument.
unfoldable pub sock_conn : Bool → ℕ → System → Built Sock × System
sock_conn nonblock fd s =
    if nonblock
    then (built (record { link = new_link; fd = fd }), watch fd s)
    else (throws sock_conn_error, s)

unfoldable pub close : Sock → System → System
close c s = close_fd c.fd (if c.link.alive then unwatch c.fd s else s)
