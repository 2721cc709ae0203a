-- ===== src/Mstore/Transaction.antt =====
-- lib/lixs/mstore/transaction.cc: operations inside of a transaction, on its own entries, and the
-- merge of these into the database. The state is the shared database and the paths that the
-- transaction has referred to.
pub mod Merge
pub mod Hidden
pub mod Isolation
pub mod Total
pub mod Run
pub mod Commit
pub mod Conflict
pub mod Abort
pub mod Outcome
pub mod Effects
pub mod Own
use lixs.Base.{
  ℕ, zero, suc, ◌+◌, Bool, true, false, ◌&&◌, ◌||◌, not, Option, none, some, List, [], ◌∷◌, ltb,
  ◌==◌, if◌then◌else◌,
}
use Prim.Native.Nat.{max}
use lixs.Base.Key.{nat_key}
use lixs.Base.Map
use lixs.Base.Set
use lixs.Base.Set.{Set}
use lixs.Base.Text.{Text, length, text_key}
use lixs.Errno.{Status, Result, ok, err, enoent, eacces}
use lixs.Permissions.{PermissionList, has_read_access, has_write_access, root_perms}
use lixs.Util.{basename, join}
use lixs.Mstore.Database.{Entry, TEntry, Record, Database, new_tentry, valid, at, modify, touch}

pub record State : Type 0 where
  pub db : Database
  pub records : Set Text

-- `te.write_seq > te.delete_seq`
abbrev pub te_valid : TEntry → Bool
te_valid te = ltb te.delete_seq te.write_seq

abbrev or_new_te : Option TEntry → TEntry
or_new_te none = new_tentry
or_new_te (some te) = te

-- `rec.te[id]`
abbrev pub te_of : ℕ → Record → TEntry
te_of id r = or_new_te (Map.find id r.te)

abbrev pub store_te : ℕ → TEntry → Record → Record
store_te id te r = record r { te = Map.put id te r.te }

-- `rec.next_seq++`
abbrev pub bump : Record → Record
bump r = record r { next_seq = r.next_seq + 1 }

-- The transaction's entry, changed in view of its record.
unfoldable pub edit : ℕ → Text → (Record → TEntry → TEntry) → State → State
edit id path f s = record s { db = modify path (λ r. store_te id (f r (te_of id r)) r) s.db }

-- The same where the change takes `rec.next_seq++`.
unfoldable pub edit_bump : ℕ → Text → (Record → TEntry → TEntry) → State → State
edit_bump id path f s = record s {
  db = modify path (λ r. bump (store_te id (f r (te_of id r)) r)) s.db;
}

abbrev pub init_te : Record → TEntry
init_te r = record new_tentry {
  write_seq = r.e.write_seq;
  delete_seq = r.e.delete_seq;
  init_valid = valid r.e;
  init_seq = r.next_seq;
}

-- `record& rec = db[path]; tentry& te = get_tentry(path, rec)`
unfoldable pub get_tentry : ℕ → Text → State → State
get_tentry id path s = elim (Map.find id (at path s.db).te) [
  | some te ↦ record s { db = touch path s.db }
  | none ↦ record {
    db = modify path (λ r. bump (store_te id (init_te r) r)) s.db;
    records = Set.insert path s.records;
  }
]

abbrev pub tentry : ℕ → Text → State → TEntry
tentry id path s = te_of id (at path s.db)

-- `te.write_seq < te.init_seq && te.delete_seq < te.init_seq`
abbrev pub untouched : TEntry → Bool
untouched te = ltb te.write_seq te.init_seq && ltb te.delete_seq te.init_seq

abbrev pub read_data : Record → TEntry → TEntry
read_data r te =
    if untouched te
    then record te { value = r.e.value; perms = r.e.perms; read_seq = r.next_seq }
    else record te { read_seq = r.next_seq }

unfoldable pub fetch_tentry_data : ℕ → Text → State → State
fetch_tentry_data id path s =
    if (tentry id path s).read_seq == 0 then edit_bump id path read_data s else s

abbrev pub read_children : Record → TEntry → TEntry
read_children r te =
    if valid r.e
    then record te {
      children = Set.insert_all r.e.children te.children;
      read_children_seq = r.next_seq;
    }
    else record te { read_children_seq = r.next_seq }

unfoldable pub fetch_tentry_children : ℕ → Text → State → State
fetch_tentry_children id path s =
    if (tentry id path s).read_children_seq == 0 then edit_bump id path read_children s else s

-- `te.children + te.children_add - te.children_rem`
abbrev pub current_children : TEntry → Set Text
current_children te = Set.erase_all te.children_rem (Set.insert_all te.children_add te.children)

abbrev pub add_child : Text → Record → TEntry → TEntry
add_child name r te = record te {
  children_add = Set.insert name te.children_add;
  children_rem = Set.erase name te.children_rem;
}

abbrev pub rem_child : Text → Record → TEntry → TEntry
rem_child name r te = record te {
  children_rem = Set.insert name te.children_rem;
  children_add = Set.erase name te.children_add;
}

unfoldable pub register_with_parent : ℕ → Text → State → State
register_with_parent id path s = elim (basename path) [
  | none ↦ s
  | some (parent, name) ↦ edit id parent (add_child name) (get_tentry id parent s)
]

unfoldable pub unregister_from_parent : ℕ → Text → State → State
unregister_from_parent id path s = elim (basename path) [
  | none ↦ s
  | some (parent, name) ↦ edit id parent (rem_child name) (get_tentry id parent s)
]

unfoldable pub get_parent_perms : ℕ → Text → State → PermissionList × State
get_parent_perms id path s = elim (basename path) [
  | none ↦ (root_perms, s)
  | some (parent, name) ↦
      let fetched = fetch_tentry_data id parent (get_tentry id parent s) in
      ((tentry id parent fetched).perms, fetched)
]

abbrev pub put_value : Text → Record → TEntry → TEntry
put_value val r te = record te { value = val }

abbrev pub put_perms : PermissionList → Record → TEntry → TEntry
put_perms perms r te = record te { perms = perms }

abbrev pub mark_written : Record → TEntry → TEntry
mark_written r te = record te { write_seq = r.next_seq }

abbrev pub mark_deleted : Record → TEntry → TEntry
mark_deleted r te = record te { delete_seq = r.next_seq }

-- `get_parent_perms(path, te.perms)`
unfoldable pub inherit_perms : ℕ → Text → State → State
inherit_perms id path s =
    let (perms, s') = get_parent_perms id path s in edit id path (put_perms perms) s'

-- `create` is passed in: the two call one another.
unfoldable pub ensure_branch : (ℕ → Text → State → Bool × State) → ℕ → Text → State → State
ensure_branch create cid path s = elim (basename path) [
  | none ↦ s
  | some (parent, name) ↦ (create cid parent s).1
]

unfoldable pub create_body : ℕ → (ℕ → Text → State → Bool × State) → ℕ → Text → State → Bool × State
create_body id create cid path s =
    let here = get_tentry id path s in
    let branch = register_with_parent id path (ensure_branch create cid path here) in
    let reset = edit id path (put_value []) branch in
    if te_valid (tentry id path here)
    then (false, here)
    else (true, edit_bump id path mark_written (inherit_perms id path reset))

-- The fuel bounds the walk to the root.
unfoldable pub create_from : ℕ → ℕ → ℕ → Text → State → Bool × State
create_from zero id cid path s = (false, s)
create_from (suc fuel) id cid path s = create_body id (create_from fuel id) cid path s

unfoldable pub create : ℕ → ℕ → Text → State → Bool × State
create id cid path s = create_from (suc (length path)) id cid path s

unfoldable pub read : ℕ → ℕ → Text → State → Result Text × State
read id cid path s =
    let here = get_tentry id path s in
    let fetched = fetch_tentry_data id path here in
    if te_valid (tentry id path here)
    then (if has_read_access cid (tentry id path fetched).perms
        then (ok (tentry id path fetched).value, fetched)
        else (err eacces, fetched))
    else (err enoent, here)

unfoldable pub update : ℕ → ℕ → Text → Text → State → Status × State
update id cid path val s =
    let here = get_tentry id path s in
    let fetched = fetch_tentry_data id path here in
    let branch = register_with_parent id path (ensure_branch (create id) cid path here) in
    let finish = λ (t : State). edit_bump id path mark_written (edit id path (put_value val) t) in
    if te_valid (tentry id path here)
    then (if has_write_access cid (tentry id path fetched).perms
        then (ok tt, finish fetched)
        else (err eacces, fetched))
    else (ok tt, finish (inherit_perms id path branch))

-- The loop of `delete_branch`, with `del(0, …)` passed in; its result is not looked at.
unfoldable pub delete_all :
    (Text → State → Option (Status × State)) → Text → List Text → State → Option State
delete_all del path [] s = some s
delete_all del path (c ∷ cs) s = elim (del (join path c) s) [
  | none ↦ none
  | some (r, s') ↦ delete_all del path cs s'
]

-- The set is copied before the loop.
abbrev pub delete_branch :
    (Text → State → Option (Status × State)) → ℕ → Text → State → Option State
delete_branch del id path s = delete_all del path (current_children (tentry id path s)) s

unfoldable pub del_body :
    (Text → State → Option (Status × State)) → ℕ → ℕ → Text → State → Option (Status × State)
del_body del id cid path s =
    let here = get_tentry id path s in
    let with_data = fetch_tentry_data id path here in
    let fetched = fetch_tentry_children id path with_data in
    elim (te_valid (tentry id path here)) [
      | false ↦ some (err enoent, here)
      | true ↦ elim (has_write_access cid (tentry id path with_data).perms) [
        | false ↦ some (err eacces, with_data)
        | true ↦ elim (delete_branch del id path fetched) [
          | none ↦ none
          | some s' ↦
              some (ok tt, edit_bump id path mark_deleted (unregister_from_parent id path s'))
        ]
      ]
    ]

-- The fuel bounds the depth of the recursion; `none` means that it ran out.
unfoldable pub del_from : ℕ → ℕ → ℕ → Text → State → Option (Status × State)
del_from zero id cid path s = none
del_from (suc fuel) id cid path s = del_body (del_from fuel id 0) id cid path s

-- No path of the database is longer.
abbrev pub longest : Database → ℕ
longest [] = 0
longest ((k, r) ∷ db) = max (length k) (longest db)

unfoldable pub del : ℕ → ℕ → Text → State → Option (Status × State)
del id cid path s = del_from (suc (longest s.db + 1)) id cid path s

unfoldable pub get_children : ℕ → ℕ → Text → State → Result (Set Text) × State
get_children id cid path s =
    let here = get_tentry id path s in
    let with_data = fetch_tentry_data id path here in
    let fetched = fetch_tentry_children id path with_data in
    if te_valid (tentry id path here)
    then (if has_read_access cid (tentry id path with_data).perms
        then (ok (current_children (tentry id path fetched)), fetched)
        else (err eacces, with_data))
    else (err enoent, here)

unfoldable pub get_perms : ℕ → ℕ → Text → State → Result PermissionList × State
get_perms id cid path s =
    let here = get_tentry id path s in
    let fetched = fetch_tentry_data id path here in
    if te_valid (tentry id path here)
    then (if has_read_access cid (tentry id path fetched).perms
        then (ok (tentry id path fetched).perms, fetched)
        else (err eacces, fetched))
    else (err enoent, here)

unfoldable pub set_perms : ℕ → ℕ → Text → PermissionList → State → Status × State
set_perms id cid path perms s =
    let here = get_tentry id path s in
    let fetched = fetch_tentry_data id path here in
    if te_valid (tentry id path here)
    then (if has_write_access cid (tentry id path fetched).perms
        then (ok tt, edit_bump id path mark_written (edit id path (put_perms perms) fetched))
        else (err eacces, fetched))
    else (err enoent, here)
