-- ===== src/Mstore/SimpleAccess.antt =====
-- lib/lixs/mstore/simple_access.cc: operations outside of a transaction, straight on the database.
pub mod Planted
pub mod Grown
pub mod Create
pub mod Below
pub mod Pruned
pub mod Delete
pub mod Reads
pub mod Creation
pub mod Run
use lixs.Base.{
  ℕ, zero, suc, ◌+◌, ◌*◌, Bool, true, false, Option, none, some, List, [], ◌∷◌, if◌then◌else◌,
}
use lixs.Base.Map
use lixs.Base.Set
use lixs.Base.Set.{Set}
use lixs.Base.Text.{Text, length, text_key}
use lixs.Errno.{Status, Result, ok, err, enoent, eacces}
use lixs.Permissions.{PermissionList, has_read_access, has_write_access, root_perms}
use lixs.Util.{basename, join}
use lixs.Mstore.Database.{Entry, Record, Database, valid, at, modify, touch, is_valid}

-- Changes of one record.
abbrev pub set_value : Text → Record → Record
set_value val r = record r { e = record r.e { value = val } }

abbrev pub put_perms : PermissionList → Record → Record
put_perms perms r = record r { e = record r.e { perms = perms } }

-- `rec.e.write_seq = rec.next_seq++`
abbrev pub mark_written : Record → Record
mark_written r = record r { e = record r.e { write_seq = r.next_seq }; next_seq = r.next_seq + 1 }

abbrev pub mark_deleted : Record → Record
mark_deleted r = record r { e = record r.e { delete_seq = r.next_seq }; next_seq = r.next_seq + 1 }

-- The children list changed, and `rec.e.write_children_seq = rec.next_seq++`.
abbrev pub put_children : Set Text → Record → Record
put_children cs r = record r {
  e = record r.e { children = cs; write_children_seq = r.next_seq };
  next_seq = r.next_seq + 1;
}

unfoldable pub register_with_parent : Text → Database → Database
register_with_parent path db = elim (basename path) [
  | none ↦ db
  | some (parent, name) ↦ modify parent (λ r. put_children (Set.insert name r.e.children) r) db
]

unfoldable pub unregister_from_parent : Text → Database → Database
unregister_from_parent path db = elim (basename path) [
  | none ↦ db
  | some (parent, name) ↦ modify parent (λ r. put_children (Set.erase name r.e.children) r) db
]

-- The parent's record is there: `register_with_parent` has just written to it.
unfoldable pub get_parent_perms : Text → Database → PermissionList
get_parent_perms path db = elim (basename path) [
  | none ↦ root_perms
  | some (parent, name) ↦ (at parent db).e.perms
]

-- `create` is passed in: the two call one another.
unfoldable pub ensure_branch :
    (ℕ → Text → Database → Bool × Database) → ℕ → Text → Database → Database
ensure_branch create cid path db = elim (basename path) [
  | none ↦ db
  | some (parent, name) ↦ (create cid parent db).1
]

-- `get_parent_perms(path, rec.e.perms)`
abbrev pub inherit_perms : Text → Database → Database
inherit_perms path db = modify path (put_perms (get_parent_perms path db)) db

unfoldable pub create_body :
    (ℕ → Text → Database → Bool × Database) → ℕ → Text → Database → Bool × Database
create_body create cid path db =
    let here = touch path db in
    let branch = register_with_parent path (ensure_branch create cid path here) in
    let reset = modify path (set_value []) branch in
    if is_valid path here
    then (false, here)
    else (true, modify path mark_written (inherit_perms path reset))

-- The fuel bounds the walk to the root.
unfoldable pub create_from : ℕ → ℕ → Text → Database → Bool × Database
unfolding create_body
create_from zero cid path db = (false, db)
create_from (suc fuel) cid path db = create_body (create_from fuel) cid path db

unfoldable pub create : ℕ → Text → Database → Bool × Database
unfolding create_from
create cid path db = create_from (suc (length path)) cid path db

unfoldable pub read : ℕ → Text → Database → Result Text
read cid path db = elim (Map.find path db) [
  | none ↦ err enoent
  | some rec ↦
      if valid rec.e
      then (if has_read_access cid rec.e.perms then ok rec.e.value else err eacces)
      else err enoent
]

unfoldable pub update : ℕ → Text → Text → Database → Status × Database
update cid path val db =
    let here = touch path db in
    let branch = register_with_parent path (ensure_branch create cid path here) in
    let finish = λ (d : Database). modify path mark_written (modify path (set_value val) d) in
    if is_valid path here
    then (if has_write_access cid (at path here).e.perms
        then (ok tt, finish here)
        else (err eacces, here))
    else (ok tt, finish (inherit_perms path branch))

-- The record of `path`, once its branch is gone: erased, unless a transaction refers to it.
unfoldable pub drop_record : Text → Database → Database
drop_record path db =
    if Map.is_empty (at path db).te then Map.erase path db else modify path mark_deleted db

-- The fuel bounds the recursion together with the `while` loop; `none` means that it ran out.
unfoldable mutual
  pub del_from : ℕ → ℕ → Text → Database → Option (Status × Database)
  del_from zero cid path db = none
  del_from (suc fuel) cid path db = elim (Map.find path db) [
    | none ↦ some (err enoent, db)
    | some rec ↦ elim (valid rec.e) [
      | false ↦ some (err enoent, db)
      | true ↦ elim (has_write_access cid rec.e.perms) [
        | false ↦ some (err eacces, db)
        | true ↦ elim (delete_branch fuel path db) [
          | none ↦ none
          | some db' ↦ some (ok tt, drop_record path (unregister_from_parent path db'))
        ]
      ]
    ]
  ]

  pub delete_branch : ℕ → Text → Database → Option Database
  delete_branch zero path db = none
  delete_branch (suc fuel) path db = elim (at path db).e.children [
    | [] ↦ some db
    | child ∷ rest ↦ elim (del_from fuel 0 (join path child) db) [
      | none ↦ none
      | some (r, db') ↦ delete_branch fuel path db'
    ]
  ]

-- Fuel for every record of the database.
unfoldable pub del : ℕ → Text → Database → Option (Status × Database)
unfolding del_from
del cid path db = del_from (suc (2 * length db + 1)) cid path db

unfoldable pub get_children : ℕ → Text → Database → Result (Set Text)
get_children cid path db = elim (Map.find path db) [
  | none ↦ err enoent
  | some rec ↦
      if valid rec.e
      then (if has_read_access cid rec.e.perms then ok rec.e.children else err eacces)
      else err enoent
]

unfoldable pub get_perms : ℕ → Text → Database → Result PermissionList
get_perms cid path db = elim (Map.find path db) [
  | none ↦ err enoent
  | some rec ↦
      if valid rec.e
      then (if has_read_access cid rec.e.perms then ok rec.e.perms else err eacces)
      else err enoent
]

unfoldable pub set_perms : ℕ → Text → PermissionList → Database → Status × Database
set_perms cid path perms db = elim (Map.find path db) [
  | none ↦ (err enoent, db)
  | some rec ↦
      if valid rec.e
      then (if has_write_access cid rec.e.perms
          then (ok tt, modify path (λ r. mark_written (put_perms perms r)) db)
          else (err eacces, db))
      else (err enoent, db)
]
