-- ===== src/Mstore/SimpleAccess/Pruned.antt =====
-- Taking one entry without children away from a sound database.
use lixs.Base.{
  ◌≡◌, ◌≢◌, true, false, Bool, List, [], ◌∷◌, some, none, arith, refl, inl, inr, ◌⊎◌, Bool-cases,
  Option-cases, ite, if◌then◌else◌,
}
use lixs.Base.Map
use lixs.Base.Set
use lixs.Base.Text.{Text, text_dec, text_key}
use lixs.Permissions.{PermissionList, has_write_access}
use lixs.Util.{basename, join}
use lixs.Mstore.Database.{Record, TEntryMap, Database, at, is_valid, valid, modify, new_record}
use lixs.Mstore.Database.Laws.{at-modify, at-modify_ne, at-erase}
use lixs.Mstore.Database.Sound.{
  IsSound, IsFresh, unlink-IsSound, drop_root-IsSound, parent-ne, IsFresh-new,
}
use lixs.Mstore.SimpleAccess.{unregister_from_parent, drop_record, mark_deleted, put_children}
use lixs.Util.Below.{below, below-join, below-of_join}
use lixs.Mstore.SimpleAccess.Below.{Shrinks}

-- Only what `gone` says is taken away.
pub record Pruned (gone : Text → Bool) (db db' : Database) : Type 0 where
  pub sound : IsSound db'
  pub shrinks : Shrinks db db'
  pub kept :
      (j : Text)
      → gone j ≡ false
      → (is_valid j db' ≡ is_valid j db)
        × ((at j db').e.value ≡ (at j db).e.value)
        × ((at j db').e.perms ≡ (at j db).e.perms)
  pub tables : (j : Text) → (at j db').te ≡ (at j db).te

abbrev pub within : Text → Text → Bool
within path j = ite (text_dec path j) true (below path j)

abbrev unlisting : Text → Record → Record
unlisting n r = put_children (Set.erase n r.e.children) r

-- The record that `drop_record` leaves at the path.
dropped : Record → Record
dropped r = if Map.is_empty r.te then new_record else mark_deleted r

drop-at :
    (path j : Text) (db : Database)
    → at j (drop_record path db) ≡ ite (text_dec path j) (dropped (at path db)) (at j db)
unfolding drop_record dropped
drop-at path j db = ground (arith, at-erase path j db, at-modify path j mark_deleted db)

dropped-invalid : {r : Record} → IsFresh r → valid (dropped r).e ≡ false
unfolding dropped
dropped-invalid f = ground arith

dropped-IsFresh : {r : Record} → IsFresh r → IsFresh (dropped r)
unfolding dropped
dropped-IsFresh {r} f = elim (Bool-cases (Map.is_empty r.te)) [
  | inl e ↦ rw e IsFresh-new
  | inr e ↦ rw e (record {
    write = omega (arith, f.write);
    delete = omega arith;
    children = omega (arith, f.children);
  })
]

dropped-children : (r : Record) → r.e.children ≡ [] → (dropped r).e.children ≡ []
unfolding dropped
dropped-children r h = ground arith

is_empty-nil : (m : TEntryMap) → Map.is_empty m ≡ true → m ≡ []
is_empty-nil [] e = refl
is_empty-nil (x ∷ m) e = cc

dropped-te : (r : Record) → (dropped r).te ≡ r.te
unfolding dropped
dropped-te r = elim (Bool-cases (Map.is_empty r.te)) [
  | inl e ↦ rw (e, is_empty-nil r.te e)
  | inr e ↦ rw e
]

unregister-modify :
    (path p n : Text) (db : Database)
    → basename path ≡ some (p, n)
    → unregister_from_parent path db ≡ modify p (unlisting n) db
unfolding unregister_from_parent
unregister-modify path p n db up = rw (up, unregister_from_parent)

abbrev pub after : Text → Database → Database
after path db = drop_record path (unregister_from_parent path db)

module _ (path : Text) (db : Database) (s : IsSound db) (leaf : (at path db).e.children ≡ []) where
  after-at :
      (p n : Text)
      → basename path ≡ some (p, n)
      → (j : Text)
      → at j (after path db)
        ≡ ite
            (text_dec path j)
            (dropped (at path db))
            (ite (text_dec p j) (unlisting n (at p db)) (at j db))
  after-at p n up j =
      rw
        (
          unregister-modify path p n db up,
          drop-at path j (modify p (unlisting n) db),
          at-modify_ne (parent-ne path p n up),
        )
        (simp at-modify)

  after_root-at :
      basename path ≡ none
      → (j : Text) → at j (after path db) ≡ ite (text_dec path j) (dropped (at path db)) (at j db)
  unfolding unregister_from_parent
  after_root-at up j = rw (up, unregister_from_parent, drop-at path j db)

  after-IsSound : IsSound (after path db)
  after-IsSound = elim (Option-cases (basename path)) [
    | inl up ↦
        drop_root-IsSound path _ s up (after_root-at up) (dropped-invalid (s.fresh path))
          (dropped-IsFresh (s.fresh path)) (dropped-children (at path db) leaf) leaf
    | inr ((p, n), up) ↦
        unlink-IsSound path p n _ _ s up (after-at p n up) (dropped-invalid (s.fresh path))
          (dropped-IsFresh (s.fresh path)) (dropped-children (at path db) leaf) leaf refl
          (record {
            write = omega (arith, (s.fresh p).write);
            delete = omega (arith, (s.fresh p).delete);
            children = omega arith;
          })
          refl
  ]

  pub after-invalid : is_valid path (after path db) ≡ false
  after-invalid = elim (Option-cases (basename path)) [
    | inl up ↦ ground (arith, after_root-at up path, dropped-invalid (s.fresh path))
    | inr ((p, n), up) ↦ ground (arith, after-at p n up path, dropped-invalid (s.fresh path))
  ]

  pub after-leaf : (at path (after path db)).e.children ≡ []
  after-leaf = elim (Option-cases (basename path)) [
    | inl up ↦ ground (arith, after_root-at up path, dropped-children (at path db) leaf)
    | inr ((p, n), up) ↦ ground (arith, after-at p n up path, dropped-children (at path db) leaf)
  ]

  -- Every other record keeps its entry, up to the list of children.
  after-kept :
      (j : Text)
      → j ≢ path
      → (is_valid j (after path db) ≡ is_valid j db)
        × ((at j (after path db)).e.value ≡ (at j db).e.value)
        × ((at j (after path db)).e.perms ≡ (at j db).e.perms)
  after-kept j ne = elim (Option-cases (basename path)) [
    | inl up ↦ ground (arith, after_root-at up j)
    | inr ((p, n), up) ↦ ground (arith, after-at p n up j)
  ]

  after-tables : (j : Text) → (at j (after path db)).te ≡ (at j db).te
  after-tables j = elim (Option-cases (basename path)) [
    | inl up ↦ ground (arith, after_root-at up j, dropped-te (at path db))
    | inr ((p, n), up) ↦ ground (arith, after-at p n up j, dropped-te (at path db))
  ]

pub Pruned-refl : (gone : Text → Bool) (db : Database) → IsSound db → Pruned gone db db
Pruned-refl gone db s = record {
  sound = s;
  shrinks = λ j v. v;
  kept = λ j g. (refl, refl, refl);
  tables = λ j. refl;
}

pub Pruned-trans :
    {gone first rest : Text → Bool} {a b c : Database}
    → ((j : Text) → gone j ≡ false → (first j ≡ false) × (rest j ≡ false))
    → Pruned first a b
    → Pruned rest b c
    → Pruned gone a c
Pruned-trans part p q = record {
  sound = q.sound;
  shrinks = λ j v. p.shrinks j (q.shrinks j v);
  kept = λ j g. ground (arith, part j g, p.kept j, q.kept j);
  tables = λ j. ground (arith, p.tables j, q.tables j);
}

pub Pruned-after :
    (path : Text) (db : Database)
    → IsSound db
    → (at path db).e.children ≡ []
    → is_valid path db ≡ true
    → Pruned (within path) db (after path db)
Pruned-after path db s leaf here = record {
  sound = after-IsSound path db s leaf;
  shrinks = λ j v. elim (text_dec j path) [
    | yes e ↦ rw e here
    | no ne ↦ ground (arith, after-kept path db s leaf j ne)
  ];
  kept = λ j g. elim (text_dec j path) [
    | yes e ↦ absurd (ground arith)
    | no ne ↦ after-kept path db s leaf j ne
  ];
  tables = after-tables path db s leaf;
}

pub dom0_writes : (ps : PermissionList) → has_write_access 0 ps ≡ true
unfolding has_write_access
dom0_writes ps = refl

pub within-child : (path c j : Text) → below path j ≡ false → within (join path c) j ≡ false
within-child path c j off = ground (arith, below-join path c, below-of_join path c j)

pub List-cases : (l : List Text) → (l ≡ []) ⊎ ((c : Text) × (rest : List Text) × (l ≡ c ∷ rest))
List-cases [] = inl refl
List-cases (c ∷ rest) = inr (c, rest, refl)
