-- ===== src/Mstore/SimpleAccess/Delete.antt =====
-- `del` ends on a sound database, and takes exactly a branch away.
use lixs.Base.{
  ℕ, zero, suc, ◌+◌, ◌*◌, ◌<◌, ◌≡◌, true, false, List, [], ◌∷◌, some, arith, inl, inr, Option-cases,
  ◌∙◌,
}
use lixs.Base.Map
use lixs.Base.Set
use lixs.Base.Text.{Text, length, text_dec, text_key}
use lixs.Errno.{Status, ok, err, enoent, eacces}
use lixs.Permissions.{has_write_access}
use lixs.Util.{join}
use lixs.Mstore.Database.{Database, at, is_valid, valid}
use lixs.Mstore.Database.Laws.{find-some, keys, has-keys_valid, length-keys}
use lixs.Mstore.Database.Sound.{IsSound}
use lixs.Mstore.SimpleAccess.{del_from, delete_branch, del}
use lixs.Util.Below.{below, below_irrefl}
use lixs.Mstore.SimpleAccess.Below.{
  weight, Covers, weight-child, weight-lt, weight-le-length, below_leaf-invalid,
}
use lixs.Mstore.SimpleAccess.Pruned.{
  Pruned, within, after, after-invalid, after-leaf, Pruned-refl, Pruned-trans, Pruned-after,
  dom0_writes, within-child, List-cases,
}

-- One round of each function.
delete_branch-leaf :
    (f : ℕ) (path : Text) (db : Database)
    → (at path db).e.children ≡ []
    → delete_branch (suc f) path db ≡ some db
unfolding delete_branch
delete_branch-leaf f path db leaf = rw (leaf, delete_branch)

delete_branch-step :
    (f : ℕ) (path c : Text) {rest : List Text} {r : Status} {d : Database} (db : Database)
    → (at path db).e.children ≡ c ∷ rest
    → del_from f 0 (join path c) db ≡ some (r, d)
    → delete_branch (suc f) path db ≡ delete_branch f path d
unfolding delete_branch
delete_branch-step f path c db e ran = rw (e, delete_branch) (rw (ran, delete_branch))

del_from-step :
    (f cid : ℕ) (path : Text) {d : Database} (db : Database)
    → is_valid path db ≡ true
    → has_write_access cid (at path db).e.perms ≡ true
    → delete_branch f path db ≡ some d
    → del_from (suc f) cid path db ≡ some (ok tt, after path d)
unfolding del_from
del_from-step f cid path db v may ran =
    rw (find-some path db v, del_from) (rw (v, del_from) (rw (may, del_from) (rw (ran, del_from))))

within-parts :
    (path j : Text) → within path j ≡ false → (below path j ≡ false) × (within path j ≡ false)
within-parts path j g = ground arith

mutual
  delete_branch-Pruned :
      (fuel : ℕ) (ks : List Text) (path : Text) (db : Database)
      → IsSound db
      → Covers ks db
      → 2 * weight ks path db < fuel
      → (db' : Database) × (delete_branch fuel path db ≡ some db')
        × Pruned (below path) db db'
        × ((at path db').e.children ≡ [])
  delete_branch-Pruned zero ks path db s covers h = absurd (omega arith)
  delete_branch-Pruned (suc f) ks path db s covers h = elim (List-cases (at path db).e.children) [
    | inl leaf ↦ (db, delete_branch-leaf f path db leaf, Pruned-refl (below path) db s, leaf)
    | inr (c, rest, e) ↦
        let (v, name) = s.child path c (rw e (Set.has-head c rest)) in
        let lighter = weight-child ks path c db covers v in
        let (d, ran, p, off, leaf_child) =
          del_from-Pruned f ks 0 (join path c) db s covers v
            (dom0_writes (at (join path c) db).e.perms) (omega (arith, lighter)) in
        let (d', ran', p', leaf) =
          delete_branch-Pruned f ks path d p.sound (λ j w. covers j (p.shrinks j w))
            (omega (arith, weight-lt ks path c db d covers p.shrinks v off)) in
        (
          d',
          delete_branch-step f path c db e ran ∙ ran',
          Pruned-trans (λ j g. (within-child path c j g, g)) p p',
          leaf,
        )
  ]

  del_from-Pruned :
      (fuel : ℕ) (ks : List Text) (cid : ℕ) (path : Text) (db : Database)
      → IsSound db
      → Covers ks db
      → is_valid path db ≡ true
      → has_write_access cid (at path db).e.perms ≡ true
      → 2 * weight ks path db + 1 < fuel
      → (db' : Database) × (del_from fuel cid path db ≡ some (ok tt, db'))
        × Pruned (within path) db db'
        × (is_valid path db' ≡ false)
        × ((at path db').e.children ≡ [])
  del_from-Pruned zero ks cid path db s covers v may h = absurd (omega arith)
  del_from-Pruned (suc f) ks cid path db s covers v may h =
      let (d, ran, p, leaf) = delete_branch-Pruned f ks path db s covers (omega arith) in
      let here : is_valid path d ≡ true = ground (arith, p.kept path (below_irrefl path)) in
      (
        after path d,
        del_from-step f cid path db v may ran,
        Pruned-trans (within-parts path) p (Pruned-after path d p.sound leaf here),
        after-invalid path d p.sound leaf,
        after-leaf path d p.sound leaf,
      )

-- The fuel of `del` is enough on a sound database.
pub del-Pruned :
    (cid : ℕ) (path : Text) (db : Database)
    → IsSound db
    → is_valid path db ≡ true
    → has_write_access cid (at path db).e.perms ≡ true
    → (db' : Database) × (del cid path db ≡ some (ok tt, db'))
      × Pruned (within path) db db'
      × ((j : Text) → within path j ≡ true → is_valid j db' ≡ false)
unfolding del
del-Pruned cid path db s v may =
    let (db', ran, p, off, leaf) =
      del_from-Pruned (suc (2 * length db + 1)) (keys db) cid path db s
        (λ j w. has-keys_valid j db w) v may
        (omega (arith, weight-le-length (keys db) path db, length-keys db)) in
    (
      db',
      ran,
      p,
      λ j g. elim (text_dec path j) [
        | yes e ↦ rw (← e) off
        | no ne ↦ below_leaf-invalid path db' p.sound leaf j (ground arith)
      ],
    )

del_from-absent :
    (f cid : ℕ) (path : Text) (db : Database)
    → is_valid path db ≡ false
    → del_from (suc f) cid path db ≡ some (err enoent, db)
unfolding del_from at
del_from-absent f cid path db off = elim (Option-cases (Map.find path db)) [
  | inl e ↦ rw (e, del_from)
  | inr (r, e) ↦
      let off' : valid r.e ≡ false = ground arith in rw (e, del_from) (rw (off', del_from))
]

del_from-denied :
    (f cid : ℕ) (path : Text) (db : Database)
    → is_valid path db ≡ true
    → has_write_access cid (at path db).e.perms ≡ false
    → del_from (suc f) cid path db ≡ some (err eacces, db)
unfolding del_from
del_from-denied f cid path db v denied =
    rw (find-some path db v, del_from) (rw (v, del_from) (rw (denied, del_from)))

-- `del` of what is not there, or without the right to write, changes nothing.
pub del-refused :
    (cid : ℕ) (path : Text) (db : Database)
    → (is_valid path db ≡ false → del cid path db ≡ some (err enoent, db))
      × (is_valid path db ≡ true
          → has_write_access cid (at path db).e.perms ≡ false
          → del cid path db ≡ some (err eacces, db))
unfolding del
del-refused cid path db = (
  λ off. del_from-absent (2 * length db + 1) cid path db off,
  λ v denied. del_from-denied (2 * length db + 1) cid path db v denied,
)
