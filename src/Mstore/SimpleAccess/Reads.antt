-- ===== src/Mstore/SimpleAccess/Reads.antt =====
-- What a client reads after a write: `read`, `get_perms` and `get_children` against `update`,
-- `create`, `del` and `set_perms`.
use lixs.Base.{
  ℕ, ◌≡◌, ◌≢◌, Bool, true, some, arith, refl, inl, inr, Bool-cases, if◌then◌else◌, ite, ◌∙◌, sym,
}
use lixs.Base.Text.{Text, text_key, text_dec}
use lixs.Errno.{Result, ok, err, enoent, eacces}
use lixs.Permissions.{PermissionList, has_read_access, has_write_access}
use lixs.Mstore.Database.{Entry, Database, at, is_valid, valid, modify}
use lixs.Mstore.Database.Laws.{at-modify}
use lixs.Mstore.Database.Sound.{IsSound, place-IsSound}
use lixs.Mstore.SimpleAccess.{
  read, update, del, get_perms, set_perms, get_children, put_perms, mark_written,
}
use lixs.Mstore.SimpleAccess.Delete.{del-Pruned}
use lixs.Mstore.SimpleAccess.Pruned.{within}
use lixs.Mstore.SimpleAccess.Create.{update-Updated}

-- The shape of the three reading operations.
abbrev pub guarded {ℓ} : {A : Type ℓ} → ℕ → Entry → A → Result A
guarded cid e a =
    if valid e then (if has_read_access cid e.perms then ok a else err eacces) else err enoent

module _ (cid : ℕ) (path : Text) (db : Database) where
  pub read-guarded : read cid path db ≡ guarded cid (at path db).e (at path db).e.value
  unfolding read at
  read-guarded = ground arith

  pub get_perms-guarded : get_perms cid path db ≡ guarded cid (at path db).e (at path db).e.perms
  unfolding get_perms at
  get_perms-guarded = ground arith

  pub get_children-guarded :
      get_children cid path db ≡ guarded cid (at path db).e (at path db).e.children
  unfolding get_children at
  get_children-guarded = ground arith

  pub set_perms-cases :
      (perms : PermissionList)
      → set_perms cid path perms db ≡ (
          if is_valid path db
          then (if has_write_access cid (at path db).e.perms
              then (ok tt, modify path (λ r. mark_written (put_perms perms r)) db)
              else (err eacces, db))
          else (err enoent, db))
  unfolding set_perms at
  set_perms-cases perms = ground arith

-- The same validity, value and permissions read the same.
pub read_of_kept :
    (cid : ℕ) (j : Text) (db db' : Database)
    → (is_valid j db' ≡ is_valid j db)
      × ((at j db').e.value ≡ (at j db).e.value)
      × ((at j db').e.perms ≡ (at j db).e.perms)
    → read cid j db' ≡ read cid j db
read_of_kept cid j db db' k =
    rw (read-guarded cid j db', read-guarded cid j db) (rw (k.0, k.1, k.2))

-- A client may write what is not there, and what the permissions let it write.
abbrev pub may_write : ℕ → Text → Database → Bool
may_write cid path db = if is_valid path db then has_write_access cid (at path db).e.perms else true

-- On a sound database, an `update` by a client that may write returns 0; then domain 0 reads the
-- new value at the path, and every client reads at each other path that was valid what it read
-- there before.
pub read-update :
    (cid : ℕ) (path val : Text) (db : Database)
    → IsSound db
    → may_write cid path db ≡ true
    → (c : ℕ) (j : Text) → j ≢ path
    → is_valid j db ≡ true
    → ((update cid path val db).0 ≡ ok tt)
      × (read 0 path (update cid path val db).1 ≡ ok val)
      × (read c j (update cid path val db).1 ≡ read c j db)
read-update cid path val db s may c j ne v =
    let u = update-Updated cid path val db s (λ here. ground arith) in
    let (w, same_value, same_perms) = u.kept j ne v in
    (
      u.status,
      read-guarded 0 path (update cid path val db).1
          ∙ rw (u.here, u.value) (unfold has_read_access in refl),
      read_of_kept c j db _ (w ∙ sym v, same_value, same_perms),
    )

-- On a sound database, a `del` of a valid path by a client that may write ends and returns 0; then
-- the path and all below it are gone for every client, and every other path reads as before.
pub read-del :
    (cid : ℕ) (path : Text) (db : Database)
    → IsSound db
    → is_valid path db ≡ true
    → has_write_access cid (at path db).e.perms ≡ true
    → (db' : Database) × (del cid path db ≡ some (ok tt, db'))
      × ((c : ℕ) (j : Text) → read c j db' ≡ (if within path j then err enoent else read c j db))
read-del cid path db s v may =
    let (db', ran, p, gone) = del-Pruned cid path db s v may in
    (
      db',
      ran,
      λ c j. elim (Bool-cases (within path j)) [
        | inl w ↦ rw w (read-guarded c j db' ∙ rw (gone j w))
        | inr w ↦ rw w (read_of_kept c j db db' (p.kept j w))
      ],
    )

module _ (cid : ℕ) (path : Text) (perms : PermissionList) (db : Database) (s : IsSound db)
    (v : is_valid path db ≡ true) (may : has_write_access cid (at path db).e.perms ≡ true) where
  abbrev rewritten : Database
  rewritten = modify path (λ r. mark_written (put_perms perms r)) db

  set_perms-rewritten : set_perms cid path perms db ≡ (ok tt, rewritten)
  set_perms-rewritten = set_perms-cases cid path db perms ∙ rw (v, may)

  rewritten-at :
      (j : Text)
      → at j rewritten
        ≡ ite (text_dec path j) (mark_written (put_perms perms (at path db))) (at j db)
  rewritten-at j = at-modify path j _ db

  rewritten-IsSound : IsSound rewritten
  rewritten-IsSound =
      place-IsSound path _ s (ground (arith, s.fresh path))
        (record {
          write = omega arith;
          delete = omega (arith, (s.fresh path).delete);
          children = omega (arith, (s.fresh path).children);
        })
        refl (inl v) rewritten-at

-- On a sound database, `set_perms` of a valid path by a client that may write returns 0 and keeps
-- the database sound; then domain 0 gets the new list, the value is the old one, and every other
-- path has the record that it had.
pub get_perms-set_perms :
    (cid : ℕ) (path : Text) (perms : PermissionList) (db : Database)
    → IsSound db
    → is_valid path db ≡ true
    → has_write_access cid (at path db).e.perms ≡ true
    → (db' : Database) × (set_perms cid path perms db ≡ (ok tt, db'))
      × IsSound db'
      × (get_perms 0 path db' ≡ ok perms)
      × (read 0 path db' ≡ read 0 path db)
      × ((j : Text) → at j db' ≡ ite (text_dec path j) (at path db') (at j db))
get_perms-set_perms cid path perms db s v may =
    let now = rewritten-at cid path perms db s v may in
    (
      modify path (λ r. mark_written (put_perms perms r)) db,
      set_perms-rewritten cid path perms db s v may,
      rewritten-IsSound cid path perms db s v may,
      get_perms-guarded 0 path _ ∙ unfold has_read_access in ground (arith, now path, s.fresh path),
      read-guarded 0 path _
          ∙ (unfold has_read_access in
              ground (arith, now path, s.fresh path, read-guarded 0 path db)),
      λ j. ground (arith, now j, now path),
    )
