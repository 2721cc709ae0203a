-- ===== src/Mstore/Database/Sound.antt =====
-- The invariant of the database: the valid entries are a tree, and every sequence number that is
-- in use lies below the next one.
use mathlib.Core.Path.{subst}
use mathlib.Core.Logic.{if_pos, if_neg}
use lixs.Base.{◌<◌, ◌≡◌, ◌≢◌, ◌⊎◌, ite, true, false, none, some, [], arith, ap, refl}
use lixs.Base.Map
use lixs.Base.Set
use lixs.Base.Text.{Text, text_dec, text_key, length}
use lixs.Util.{basename, join, IsName}
use lixs.Util.Basename.{basename-join, join_injective, join-basename, parent-lt}
use lixs.Mstore.Database.{Record, Database, valid, at, is_valid, new_record}

pub record IsFresh (r : Record) : Type 0 where
  pub write : r.e.write_seq < r.next_seq
  pub delete : r.e.delete_seq < r.next_seq
  pub children : r.e.write_children_seq < r.next_seq

pub record IsSound (db : Database) : Type 0 where
  -- A valid entry has a valid parent, which lists it.
  pub parent :
      (path p n : Text)
      → basename path ≡ some (p, n)
      → is_valid path db ≡ true
      → (is_valid p db ≡ true) × (Set.has n (at p db).e.children ≡ true)
  -- What an entry lists is there, under a name.
  pub child :
      (p n : Text)
      → Set.has n (at p db).e.children ≡ true
      → (is_valid (join p n) db ≡ true) × IsName n
  pub fresh : (path : Text) → IsFresh (at path db)

pub IsFresh-new : IsFresh new_record
IsFresh-new = record { write = omega arith; delete = omega arith; children = omega arith }

IsFresh-ite : (k j : Text) {a b : Record} → IsFresh a → IsFresh b → IsFresh (ite (text_dec k j) a b)
IsFresh-ite k j fa fb = elim (text_dec k j) [
  | yes e ↦ rw (if_pos _ e) fa
  | no e ↦ rw (if_neg _ e) fb
]

at-nil : (j : Text) → at j [] ≡ new_record
unfolding at Map.find
at-nil j = refl

pub IsSound-nil : IsSound []
IsSound-nil = record {
  parent = λ path p n b v. absurd (ground (arith, at-nil path));
  child = λ p n h. absurd (ground (arith, at-nil p, Set.has-nil n));
  fresh = λ path. rw at-nil IsFresh-new;
}

-- The same records at every path.
pub IsSound-of_at :
    {db db' : Database} → ((j : Text) → at j db' ≡ at j db) → IsSound db → IsSound db'
IsSound-of_at same s = record {
  parent = λ path p n b v. ground (arith, same path, same p, s.parent path p n b);
  child = λ p n h. ground (arith, same p, same (join p n), s.child p n);
  fresh = λ path. rw same (s.fresh path);
}

module _ {db db' : Database} (path : Text) (r : Record) (s : IsSound db) (ok : valid r.e ≡ true)
    (f : IsFresh r) (kids : r.e.children ≡ (at path db).e.children) where
  -- A new record at a path that is valid or a root.
  pub place-IsSound :
      (is_valid path db ≡ true) ⊎ (basename path ≡ none)
      → ((j : Text) → at j db' ≡ ite (text_dec path j) r (at j db))
      → IsSound db'
  place-IsSound was now = record {
    parent = λ q p n b v. ground (arith, now q, now p, s.parent q p n b);
    child = λ p n h. ground (arith, now p, now (join p n), s.child p n);
    fresh = λ q. rw now (IsFresh-ite path q f (s.fresh q));
  }

pub parent-ne : (path p n : Text) → basename path ≡ some (p, n) → p ≢ path
parent-ne path p n up e = absurd (omega (arith, parent-lt path up, ap length e))

module _ {db db' : Database} (path p n : Text) (r q : Record) (s : IsSound db)
    (up : basename path ≡ some (p, n))
    (now : (j : Text) → at j db' ≡ ite (text_dec path j) r (ite (text_dec p j) q (at j db))) where
  -- A record is put at a child of a valid entry, which lists it from then on.
  pub link-IsSound :
      is_valid p db ≡ true
      → valid r.e ≡ true
      → IsFresh r
      → r.e.children ≡ (at path db).e.children
      → valid q.e ≡ true
      → IsFresh q
      → q.e.children ≡ Set.insert n (at p db).e.children
      → IsSound db'
  link-IsSound was ok f kids pok pf pkids = record {
    parent = λ k i m b v. ground (
      arith,
      now k,
      now i,
      s.parent k i m b,
      up,
      parent-ne path p n up,
      (join-basename path up).0,
      Set.has-insert n m (at p db).e.children,
    );
    child = λ k m h. elim (text_dec n m) [
      | yes e ↦ (
        ground (
          arith,
          now k,
          now (join k m),
          s.child k m,
          (join-basename path up).0,
          Set.has-insert n m (at p db).e.children,
        ),
        subst IsName e (join-basename path up).1,
      )
      | no e ↦
          ground
            (arith, now k, now (join k m), s.child k m, Set.has-insert n m (at p db).e.children)
    ];
    fresh = λ k. rw now (IsFresh-ite path k f (IsFresh-ite p k pf (s.fresh k)));
  }

  -- A leaf is taken off the list of its parent and is no longer valid.
  pub unlink-IsSound :
      valid r.e ≡ false
      → IsFresh r
      → r.e.children ≡ []
      → (at path db).e.children ≡ []
      → valid q.e ≡ is_valid p db
      → IsFresh q
      → q.e.children ≡ Set.erase n (at p db).e.children
      → IsSound db'
  unlink-IsSound off f kids leaf pok pf pkids = record {
    parent = λ k i m b v. ground (
      arith,
      now k,
      now i,
      s.parent k i m b,
      (join-basename k b).0,
      (join-basename path up).0,
      Set.has-nil m,
      Set.has-erase n m (at p db).e.children,
    );
    child = λ k m h. ground (
      arith,
      now k,
      now (join k m),
      s.child k m,
      (join-basename path up).0,
      (join-basename path up).0,
      Set.has-nil m,
      Set.has-erase n m (at p db).e.children,
      λ (u : IsName m). join_injective k p m n u (join-basename path up).1,
    );
    fresh = λ k. rw now (IsFresh-ite path k f (IsFresh-ite p k pf (s.fresh k)));
  }

-- A root that is a leaf is no longer valid.
pub drop_root-IsSound :
    {db db' : Database} (path : Text) (r : Record)
    → IsSound db
    → basename path ≡ none
    → ((j : Text) → at j db' ≡ ite (text_dec path j) r (at j db))
    → valid r.e ≡ false
    → IsFresh r
    → r.e.children ≡ []
    → (at path db).e.children ≡ []
    → IsSound db'
drop_root-IsSound path r s root now off f kids leaf = record {
  parent = λ k i m b v. ground (arith, now k, now i, s.parent k i m b, Set.has-nil m);
  child = λ k m h. ground (
    arith,
    now k,
    now (join k m),
    s.child k m,
    Set.has-nil m,
    λ (u : IsName m). basename-join k m u,
  );
  fresh = λ k. rw now (IsFresh-ite path k f (s.fresh k));
}
