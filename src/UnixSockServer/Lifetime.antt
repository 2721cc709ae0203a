-- ===== src/UnixSockServer/Lifetime.antt =====
-- What the server leaves of the descriptors that it opens.
use mathlib.Core.Path.{subst}
use lixs.Base.{
  sym, inl, inr, Bool-cases, ℕ, ◌-◌, ◌≡◌, ◌∙◌, refl, ap, Bool, true, false, ◌&&◌, not, Option, none,
  some, is_some, List, [], ◌∷◌, ◌++◌, if◌then◌else◌,
}
use lixs.Base.Text.{Text, take}
use lixs.System.{
  System, Built, unix_sock_server_error, open_fd, unlink_path, is_built, Thrown, escapes,
}
use lixs.System.Lifetime.{lifetime, release-head, release-below}
use lixs.UnixSockServer.Setup.{
  Unlinked, unlinks, no_entry, unlink_fails, SocketCalls, Sockets, bind_free, bind_unlinked,
  bind_opened, bind_socket, bound_ro, bound_rw, unix_sock_server, close_clients, close,
}

abbrev pub is_free : Unlinked → Bool
is_free unlink_fails = false
is_free u = true

-- Whether the calls of `bind_socket` behind `socket` succeed.
abbrev pub usable : SocketCalls → Bool
usable c = is_free c.unlink && c.bind && c.listen

abbrev pub to_list : Option ℕ → List ℕ
to_list none = []
to_list (some fd) = fd ∷ []

-- The descriptor that `bind_socket` does not give back.
abbrev pub leaked : SocketCalls → List ℕ
leaked c = if usable c then [] else to_list c.socket

bind_free-binds :
    (c : SocketCalls) (fd : ℕ) (path : Text) (s : System)
    → ((bind_free c fd path s).0 ≡ (if c.bind && c.listen then some fd else none))
      × ((bind_free c fd path s).1.fds ≡ s.fds)
      × ((bind_free c fd path s).1.watched ≡ s.watched)
bind_free-binds c fd path s = elim (Bool-cases c.bind) [
  | inl e ↦ rw e (refl, refl, refl)
  | inr e ↦ rw e (refl, refl, refl)
]

bind_unlinked-binds :
    (c : SocketCalls) (u : Unlinked) (fd : ℕ) (path : Text) (s : System)
    → ((bind_unlinked c u fd path s).0
        ≡ (if is_free u && c.bind && c.listen then some fd else none))
      × ((bind_unlinked c u fd path s).1.fds ≡ s.fds)
      × ((bind_unlinked c u fd path s).1.watched ≡ s.watched)
bind_unlinked-binds c unlinks fd path s = bind_free-binds c fd path (unlink_path path s)
bind_unlinked-binds c no_entry fd path s = bind_free-binds c fd path s
bind_unlinked-binds c unlink_fails fd path s = (refl, refl, refl)

if_none : (b : Bool) → ◌≡◌ {A = Option ℕ} none (if b then none else none)
if_none true = refl
if_none false = refl

bind_opened-binds :
    (c : SocketCalls) (o : Option ℕ) (path : Text) (s : System)
    → ((bind_opened c o path s).0 ≡ (if usable c then o else none))
      × ((bind_opened c o path s).1.fds ≡ to_list o ++ s.fds)
      × ((bind_opened c o path s).1.watched ≡ s.watched)
bind_opened-binds c none path s = (if_none (usable c), refl, refl)
bind_opened-binds c (some fd) path s = bind_unlinked-binds c c.unlink fd path (open_fd fd s)

-- The descriptors that stay open, where the first `bind_socket` is as said.
abbrev pub left_open : Bool → Option ℕ → SocketCalls → List ℕ
left_open true none ro = []
left_open true (some fd) ro = leaked ro
left_open false o ro = to_list o

-- What the rest of the constructor and the destructor make of it.
Restores : (Built Sockets × System) → List ℕ → Bool → System → Type 0
Restores r fds made s =
    ((lifetime (close []) r).fds ≡ fds ++ s.fds)
    × ((lifetime (close []) r).watched ≡ s.watched)
    × (is_built r.0 ≡ made)

bound_ro-Restores :
    (p q : Text) (rw_fd : ℕ) (u : Bool) (o : Option ℕ) (t s : System)
    → t.fds ≡ to_list o ++ rw_fd ∷ s.fds
    → t.watched ≡ s.watched
    → Restores
        (bound_ro p q rw_fd (if u then o else none, t))
        (if u then [] else to_list o)
        (u && is_some o)
        s
unfolding lifetime close close_clients Restores
bound_ro-Restores p q fd true none t s f w = (rw (f, release-head fd s.fds) refl, w, refl)
bound_ro-Restores p q fd true (some ro) t s f w = (
  rw (f, release-below fd ro s.fds, release-head ro s.fds) refl,
  rw (release-below fd ro t.watched, release-head ro t.watched) w,
  refl,
)
bound_ro-Restores p q fd false none t s f w = (rw (f, release-head fd s.fds) refl, w, refl)
bound_ro-Restores p q fd false (some ro) t s f w = (rw (f, release-below fd ro s.fds) refl, w, refl)

bound_rw-Restores :
    (size : ℕ) (ro : SocketCalls) (p q : Text) (u : Bool) (o : Option ℕ) (t s : System)
    → t.fds ≡ to_list o ++ s.fds
    → t.watched ≡ s.watched
    → Restores
        (bound_rw size ro p q (if u then o else none, t))
        (left_open u o ro)
        (u && is_some o && (usable ro && is_some ro.socket))
        s
unfolding lifetime Restores bind_socket
bound_rw-Restores size ro p q true none t s f w = (f, w, refl)
bound_rw-Restores size ro p q true (some fd) t s f w =
    let (e, g, v) = bind_opened-binds ro ro.socket (take (size - 1) q) t in
    let r = bind_socket size ro q t in
    subst (λ x. Restores (bound_ro p q fd (x, r.1)) (leaked ro) (usable ro && is_some ro.socket) s)
      (sym e)
      (bound_ro-Restores p q fd (usable ro) ro.socket r.1 s
        (g ∙ ap (λ fds. to_list ro.socket ++ fds) f) (v ∙ w))
bound_rw-Restores size ro p q false none t s f w = (f, w, refl)
bound_rw-Restores size ro p q false (some fd) t s f w = (f, w, refl)

-- After a constructor of the server that throws, and after the destructor of one that is made and has
-- no clients, the multiplexer watches what it watched before, and the descriptors that are open are
-- those from before and those that a failing `bind_socket` got from `socket`: the first one, where
-- the second is not called, or the second one. The constructor throws exactly where one of the two
-- calls of `bind_socket` fails.
pub unix_sock_server-left_open :
    (size : ℕ) (rw_calls ro_calls : SocketCalls) (rw_path ro_path : Text) (s : System)
    → ((lifetime (close []) (unix_sock_server size rw_calls ro_calls rw_path ro_path s)).fds
        ≡ left_open (usable rw_calls) rw_calls.socket ro_calls ++ s.fds)
      × ((lifetime (close []) (unix_sock_server size rw_calls ro_calls rw_path ro_path s)).watched
          ≡ s.watched)
      × (is_built (unix_sock_server size rw_calls ro_calls rw_path ro_path s).0 ≡ (
          usable rw_calls
          && is_some rw_calls.socket
          && (usable ro_calls && is_some ro_calls.socket)))
unfolding unix_sock_server Restores bind_socket
unix_sock_server-left_open size rw ro p q s =
    let (e, g, v) = bind_opened-binds rw rw.socket (take (size - 1) p) s in
    let r = bind_socket size rw p s in
    subst
      (λ x.
        Restores (bound_rw size ro p q (x, r.1)) (left_open (usable rw) rw.socket ro)
          (usable rw && is_some rw.socket && (usable ro && is_some ro.socket)) s)
      (sym e) (bound_rw-Restores size ro p q (usable rw) rw.socket r.1 s g v)

bound_ro-escapes :
    (caught : Thrown → Bool) (p q : Text) (fd : ℕ) (r : Option ℕ × System)
    → caught unix_sock_server_error ≡ true
    → escapes caught (bound_ro p q fd r).0 ≡ false
unfolding escapes
bound_ro-escapes caught p q fd (none, s) e = ap not e
bound_ro-escapes caught p q fd (some ro, s) e = refl

bound_rw-escapes :
    (caught : Thrown → Bool) (size : ℕ) (ro : SocketCalls) (p q : Text) (r : Option ℕ × System)
    → caught unix_sock_server_error ≡ true
    → escapes caught (bound_rw size ro p q r).0 ≡ false
unfolding escapes
bound_rw-escapes caught size ro p q (none, s) e = ap not e
bound_rw-escapes caught size ro p q (some fd, s) e =
    bound_ro-escapes caught p q fd (bind_socket size ro q s) e

-- The constructor throws nothing but `unix_sock_server_error`.
pub unix_sock_server-escapes :
    (caught : Thrown → Bool) (size : ℕ) (rw_calls ro_calls : SocketCalls) (p q : Text) (s : System)
    → caught unix_sock_server_error ≡ true
    → escapes caught (unix_sock_server size rw_calls ro_calls p q s).0 ≡ false
unfolding unix_sock_server
unix_sock_server-escapes caught size rw ro p q s e =
    bound_rw-escapes caught size ro p q (bind_socket size rw p s) e
