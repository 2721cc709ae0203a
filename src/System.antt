-- ===== src/System.antt =====
-- What the program holds of the system: descriptors, event channels, handles of the hypervisor's
-- libraries and mapped pages, each by the number or the address that the system gave, and the
-- descriptors that the multiplexer watches; and the paths of sockets that there are. A constructor either makes its object or throws.
pub mod Lifetime
use lixs.Base.{ℕ, Bool, true, false, not, List, [], ◌∷◌, ◌==◌, if◌then◌else◌}
use lixs.Base.Set
use lixs.Base.Set.{Set}
use lixs.Base.Text.{Text, text_key}

pub record System : Type 0 where
  pub fds : List ℕ
  pub evtchns : List ℕ
  pub xcs : List ℕ
  pub gnttabs : List ℕ
  pub pages : List ℕ
  pub watched : List ℕ
  pub paths : Set Text

-- The exceptions of the constructors.
pub data Thrown : Type 0 where
  ring_conn_error foreign_ring_mapper_error xenbus_error dom_exc_error : Thrown
  unix_sock_server_error sock_conn_error : Thrown

pub data Built {ℓ} (A : Type ℓ) : Type ℓ where
  built : A → Built A
  throws : Thrown → Built A

-- The first `n` is gone.
unfoldable pub release : ℕ → List ℕ → List ℕ
release n [] = []
release n (m ∷ ms) = let rest = release n ms in if n == m then ms else m ∷ rest

abbrev pub open_fd : ℕ → System → System
open_fd n s = record s { fds = n ∷ s.fds }

abbrev pub close_fd : ℕ → System → System
close_fd n s = record s { fds = release n s.fds }

abbrev pub open_evtchn : ℕ → System → System
open_evtchn n s = record s { evtchns = n ∷ s.evtchns }

abbrev pub close_evtchn : ℕ → System → System
close_evtchn n s = record s { evtchns = release n s.evtchns }

abbrev pub open_xc : ℕ → System → System
open_xc n s = record s { xcs = n ∷ s.xcs }

abbrev pub close_xc : ℕ → System → System
close_xc n s = record s { xcs = release n s.xcs }

abbrev pub open_gnttab : ℕ → System → System
open_gnttab n s = record s { gnttabs = n ∷ s.gnttabs }

abbrev pub close_gnttab : ℕ → System → System
close_gnttab n s = record s { gnttabs = release n s.gnttabs }

abbrev pub map_page : ℕ → System → System
map_page n s = record s { pages = n ∷ s.pages }

abbrev pub unmap_page : ℕ → System → System
unmap_page n s = record s { pages = release n s.pages }

-- `io.add` and `io.rem`
abbrev pub watch : ℕ → System → System
watch n s = record s { watched = n ∷ s.watched }

abbrev pub unwatch : ℕ → System → System
unwatch n s = record s { watched = release n s.watched }

-- `bind` and `unlink` of a path
abbrev pub bind_path : Text → System → System
bind_path path s = record s { paths = Set.insert path s.paths }

abbrev pub unlink_path : Text → System → System
unlink_path path s = record s { paths = Set.erase path s.paths }

-- Whether an exception leaves the handlers that catch those of `caught`.
unfoldable pub escapes {ℓ} : {A : Type ℓ} → (Thrown → Bool) → Built A → Bool
escapes caught (built a) = false
escapes caught (throws e) = not (caught e)

abbrev pub is_built {ℓ} : {A : Type ℓ} → Built A → Bool
is_built (built a) = true
is_built (throws e) = false
