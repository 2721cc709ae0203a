-- ===== src/Mstore/SimpleAccess/Run.antt =====
-- Any sequence of operations outside of transactions: each ends, and the database stays sound.
use lixs.Base.{ℕ, ◌≡◌, Option, none, some, List, [], ◌∷◌, refl, inl, inr, Bool-cases}
use lixs.Base.Text.{Text}
use lixs.Errno.{Status}
use lixs.Permissions.{PermissionList, has_write_access}
use lixs.Mstore.Database.{Database, at, is_valid}
use lixs.Mstore.Database.Sound.{IsSound, IsSound-of_at}
use lixs.Mstore.SimpleAccess.{create, update, del, set_perms}
use lixs.Mstore.SimpleAccess.Create.{create-Created, update-Updated, update-eacces}
use lixs.Mstore.SimpleAccess.Delete.{del-Pruned, del-refused}
use lixs.Mstore.SimpleAccess.Reads.{get_perms-set_perms, set_perms-cases}

-- A deletion on a sound database ends.
pub del-ends :
    (cid : ℕ) (path : Text) (db : Database)
    → IsSound db
    → (r : Status × Database) × (del cid path db ≡ some r)
del-ends cid path db s = elim (Bool-cases (is_valid path db)) [
  | inr off ↦ (_, (del-refused cid path db).0 off)
  | inl v ↦ elim (Bool-cases (has_write_access cid (at path db).e.perms)) [
    | inl may ↦ (let (db', e, p, gone) = del-Pruned cid path db s v may in (_, e))
    | inr denied ↦ (_, (del-refused cid path db).1 v denied)
  ]
]

-- The operations that write.
pub data Call : Type 0 where
  creates : ℕ → Text → Call
  updates : ℕ → Text → Text → Call
  dels : ℕ → Text → Call
  sets_perms : ℕ → Text → PermissionList → Call

abbrev ran : Option (Status × Database) → Option Database
ran none = none
ran (some (r, db)) = some db

pub step : Call → Database → Option Database
step (creates cid path) db = some (create cid path db).1
step (updates cid path val) db = some (update cid path val db).1
step (dels cid path) db = ran (del cid path db)
step (sets_perms cid path perms) db = some (set_perms cid path perms db).1

pub run : List Call → Database → Option Database
run [] db = some db
run (c ∷ cs) db = elim (step c db) [ none ↦ none | some db' ↦ run cs db' ]

step-IsSound :
    (c : Call) (db : Database)
    → IsSound db
    → (db' : Database) × (step c db ≡ some db') × IsSound db'
unfolding step
step-IsSound (creates cid path) db s =
    ((create cid path db).1, refl, (create-Created cid path db s).grown.sound)
step-IsSound (updates cid path val) db s = elim (Bool-cases (is_valid path db)) [
  | inr off ↦ (_, refl, (update-Updated cid path val db s (λ v. cc)).sound)
  | inl v ↦ elim (Bool-cases (has_write_access cid (at path db).e.perms)) [
    | inl may ↦ (_, refl, (update-Updated cid path val db s (λ w. may)).sound)
    | inr denied ↦ (_, refl, IsSound-of_at (update-eacces cid path val db v denied).1 s)
  ]
]
step-IsSound (dels cid path) db s = elim (Bool-cases (is_valid path db)) [
  | inr off ↦ (db, rw ((del-refused cid path db).0 off), s)
  | inl v ↦ elim (Bool-cases (has_write_access cid (at path db).e.perms)) [
    | inl may ↦ let (db', e, p, gone) = del-Pruned cid path db s v may in (db', rw e, p.sound)
    | inr denied ↦ (db, rw ((del-refused cid path db).1 v denied), s)
  ]
]
step-IsSound (sets_perms cid path perms) db s = elim (Bool-cases (is_valid path db)) [
  | inr off ↦ (db, rw (set_perms-cases cid path db perms) (rw off), s)
  | inl v ↦ elim (Bool-cases (has_write_access cid (at path db).e.perms)) [
    | inl may ↦
        let (db', e, t, got, same, others) = get_perms-set_perms cid path perms db s v may in
        (db', rw e, t)
    | inr denied ↦ (db, rw (set_perms-cases cid path db perms) (rw (v, denied)), s)
  ]
]

-- From a sound database, any sequence of `create`, `update`, `del` and `set_perms`, whatever the
-- clients and the paths, ends, and the database after it is sound.
pub run-IsSound :
    (cs : List Call) (db : Database)
    → IsSound db
    → (db' : Database) × (run cs db ≡ some db') × IsSound db'
unfolding run
run-IsSound [] db s = (db, refl, s)
run-IsSound (c ∷ cs) db s =
    let (d, e, t) = step-IsSound c db s in
    let (d', e', t') = run-IsSound cs d t in (d', rw (e, run) e', t')
