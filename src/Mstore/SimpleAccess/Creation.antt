-- ===== src/Mstore/SimpleAccess/Creation.antt =====
-- What a `create` adds to the database, and what the operations report.
use lixs.Base.{
  ℕ, zero, suc, ◌<◌, ◌≡◌, ◌∙◌, sym, true, false, ◌||◌, not, some, [], arith, refl, inl, inr,
  Bool-cases, Option-cases, if◌then◌else◌,
}
use lixs.Base.Text.{Text, text_dec, length}
use lixs.Errno.{ok, err, enoent}
use lixs.Permissions.{PermissionList, has_read_access}
use lixs.Util.{basename}
use lixs.Util.Basename.{parent-lt}
use lixs.Util.Below.{below, below-parent, below-root}
use lixs.Mstore.Database.{Database, is_valid}
use lixs.Mstore.Database.Sound.{IsSound}
use lixs.Mstore.SimpleAccess.{create, read, del, get_children, get_perms, set_perms}
use lixs.Mstore.SimpleAccess.Create.{create-Created}
use lixs.Mstore.SimpleAccess.Delete.{del-refused}
use lixs.Mstore.SimpleAccess.Pruned.{within}
use lixs.Mstore.SimpleAccess.Grown.{Grown, OnBranch, self, above}
use lixs.Mstore.SimpleAccess.Reads.{
  read-guarded, get_perms-guarded, get_children-guarded, set_perms-cases, read_of_kept,
}

-- In a sound database all that lies above a valid path is valid.
above-valid :
    (f : ℕ) (path k : Text) (db : Database)
    → length path < f
    → IsSound db
    → is_valid path db ≡ true
    → below k path ≡ true
    → is_valid k db ≡ true
above-valid zero path k db h s v b = absurd (omega arith)
above-valid (suc f) path k db h s v b = elim (Option-cases (basename path)) [
  | inl up ↦ absurd (ground (arith, below-root k path up))
  | inr ((p, n), up) ↦
      let (v', kid) = s.parent path p n up v in
      elim (text_dec p k) [
        | yes e ↦ ground arith
        | no ne ↦
            above-valid f p k db (omega (arith, parent-lt path up)) s v'
              (ground (arith, below-parent k path up))
      ]
]

within_self : (k : Text) → within k k ≡ true
within_self k = ground arith

within_of_OnBranch : (k : Text) {path : Text} → OnBranch k path → within k path ≡ true
within_of_OnBranch k self = within_self k
within_of_OnBranch k (above up o) = ground (arith, within_of_OnBranch k o, below-parent k _ up)

-- The valid paths after a growth: the old ones, and the branch.
Grown-valid :
    (path j : Text) (db db' : Database)
    → Grown path db db'
    → is_valid j db' ≡ (is_valid j db || within j path)
Grown-valid path j db db' g = elim (Bool-cases (is_valid j db)) [
  | inl v ↦ rw v (g.kept j v).0
  | inr off ↦ rw off (elim (text_dec j path) [
    | yes e ↦ (let here = g.here in ground arith)
    | no ne ↦ elim (Bool-cases (below j path)) [
      | inl b ↦
          ground (arith, above-valid (suc (length path)) path j db' (omega arith) g.sound g.here b)
      | inr nb ↦ elim (Bool-cases (is_valid j db')) [
        | inr gone ↦ ground arith
        | inl there ↦ elim (g.only j there) [
          | inl v ↦ absurd (ground arith)
          | inr o ↦ absurd (ground (arith, within_of_OnBranch j o))
        ]
      ]
    ]
  ])
]

-- From a sound database `create` says whether the path is new. After it the valid paths are those
-- that were valid, the path, and the paths above it; domain 0 reads an empty value at a new path,
-- and what it read before at one that was there.
pub create-valid :
    (cid : ℕ) (path : Text) (db : Database)
    → IsSound db
    → (j : Text)
    → ((create cid path db).0 ≡ not (is_valid path db))
      × (is_valid j (create cid path db).1 ≡ (is_valid j db || within j path))
      × (read 0 path (create cid path db).1 ≡ (if is_valid path db then read 0 path db else ok []))
create-valid cid path db s j =
    let c = create-Created cid path db s in
    (
      c.created,
      Grown-valid path j db _ c.grown,
      elim (Bool-cases (is_valid path db)) [
        | inl v ↦
            let (w, same_value, same_perms) = c.grown.kept path v in
            rw v (read_of_kept 0 path db _ (w ∙ sym v, same_value, same_perms))
        | inr off ↦ rw off (
            read-guarded 0 path _
            ∙ rw (c.grown.here, (c.born off).value) (unfold has_read_access in refl))
      ],
    )

module _ (cid : ℕ) (path val : Text) (perms : PermissionList) (db : Database) where
  -- At a path that is not there `read`, `get_children`, `get_perms`, `del` and `set_perms` report
  -- `enoent` to every client, and the last two leave the database as it is.
  pub absent-enoent :
      is_valid path db ≡ false
      → (read cid path db ≡ err enoent)
        × (get_children cid path db ≡ err enoent)
        × (get_perms cid path db ≡ err enoent)
        × (del cid path db ≡ some (err enoent, db))
        × (set_perms cid path perms db ≡ (err enoent, db))
  absent-enoent off = (
    read-guarded cid path db ∙ rw off,
    get_children-guarded cid path db ∙ rw off,
    get_perms-guarded cid path db ∙ rw off,
    (del-refused cid path db).0 off,
    set_perms-cases cid path db perms ∙ rw off,
  )
