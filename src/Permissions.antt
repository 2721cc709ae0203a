-- ===== src/Permissions.antt =====
-- inc/lixs/permissions.hh and lib/lixs/mstore/database.cc: permission lists, and who may read and
-- write under one. The first permission of a list names the owner and what everybody may do.
pub mod Access
use lixs.Base.{ℕ, Bool, true, false, ◌&&◌, ◌||◌, List, [], ◌∷◌, ◌==◌, if◌then◌else◌}

pub record Permission : Type 0 where
  pub cid : ℕ
  pub read : Bool
  pub write : Bool

abbrev pub PermissionList : Type 0
PermissionList = List Permission

-- The loops over the list: is there an entry of this client that allows it?
abbrev pub grants_read : ℕ → PermissionList → Bool
grants_read cid [] = false
grants_read cid (p ∷ ps) = if p.cid == cid && p.read then true else grants_read cid ps

abbrev pub grants_write : ℕ → PermissionList → Bool
grants_write cid [] = false
grants_write cid (p ∷ ps) = if p.cid == cid && p.write then true else grants_write cid ps

-- `perms.empty() || perms.front().cid == cid || perms.front().read`
abbrev pub front_allows_read : ℕ → PermissionList → Bool
front_allows_read cid [] = true
front_allows_read cid (p ∷ ps) = p.cid == cid || p.read

abbrev pub front_allows_write : ℕ → PermissionList → Bool
front_allows_write cid [] = true
front_allows_write cid (p ∷ ps) = p.cid == cid || p.write

unfoldable pub has_read_access : ℕ → PermissionList → Bool
has_read_access cid perms =
    if cid == 0 || front_allows_read cid perms then true else grants_read cid perms

unfoldable pub has_write_access : ℕ → PermissionList → Bool
has_write_access cid perms =
    if cid == 0 || front_allows_write cid perms then true else grants_write cid perms

-- The default of a root node: `permission(0, false, false)`.
abbrev pub root_perms : PermissionList
root_perms = record { cid = 0; read = false; write = false } ∷ []
