-- ===== src/Mstore/SimpleAccess/Grown.antt =====
-- A database that has grown by a branch: what `create` and `update` promise.
use mathlib.Core.Path.{subst}
use lixs.Base.{◌≡◌, ite, true, false, none, some, arith, ◌⊎◌, inl, inr, refl}
use lixs.Base.Text.{Text, text_dec, text_key}
use lixs.Permissions.{PermissionList, root_perms}
use lixs.Util.{basename}
use lixs.Mstore.Database.{Record, Database, valid, at, is_valid}
use lixs.Mstore.Database.Sound.{IsSound, IsFresh, link-IsSound, place-IsSound, parent-ne}
use lixs.Mstore.SimpleAccess.Planted.{planted, listing}

-- `j` is `path` or one of its ancestors.
pub data OnBranch (j : Text) : Text → Type 0 where
  self : OnBranch j j
  above : {path p n : Text} → basename path ≡ some (p, n) → OnBranch j p → OnBranch j path

pub record Grown (path : Text) (db db' : Database) : Type 0 where
  pub sound : IsSound db'
  pub here : is_valid path db' ≡ true
  -- What was valid still is, with its value and permissions.
  pub kept :
      (j : Text)
      → is_valid j db ≡ true
      → (is_valid j db' ≡ true)
        × ((at j db').e.value ≡ (at j db).e.value)
        × ((at j db').e.perms ≡ (at j db).e.perms)
  -- What is new is on the way to the root.
  pub only : (j : Text) → is_valid j db' ≡ true → (is_valid j db ≡ true) ⊎ OnBranch j path
  -- Transactions see nothing of it in their own tables.
  pub tables : (j : Text) → (at j db').te ≡ (at j db).te

-- A new entry: its value, and the permissions that it takes from its parent.
pub record Born (path val : Text) (db' : Database) : Type 0 where
  pub value : (at path db').e.value ≡ val
  pub inherits :
      (p n : Text) → basename path ≡ some (p, n) → (at path db').e.perms ≡ (at p db').e.perms
  pub root : basename path ≡ none → (at path db').e.perms ≡ root_perms

planted-IsFresh :
    (val : Text) (perms : PermissionList) {r : Record} → IsFresh r → IsFresh (planted val perms r)
planted-IsFresh val perms f = record {
  write = omega arith;
  delete = omega arith;
  children = omega arith;
}

listing-IsFresh : (n : Text) {r : Record} → IsFresh r → IsFresh (listing n r)
listing-IsFresh n f = record { write = omega arith; delete = omega arith; children = omega arith }

planted-valid :
    (val : Text) (perms : PermissionList) {r : Record}
    → IsFresh r
    → valid (planted val perms r).e ≡ true
planted-valid val perms f = ground arith

module _ (path : Text) (val : Text) (perms : PermissionList) {db db' : Database} where
  pub Grown-branch :
      {d : Database} {p n : Text}
      → basename path ≡ some (p, n)
      → is_valid path db ≡ false
      → Grown p db d
      → ((j : Text)
          → at j db'
            ≡ ite
                (text_dec path j)
                (planted val perms (at path d))
                (ite (text_dec p j) (listing n (at p d)) (at j d)))
      → Grown path db db'
  Grown-branch {p} {n} up off g now = record {
    sound =
        link-IsSound path p n _ _ g.sound up now g.here
          (planted-valid val perms (g.sound.fresh path))
          (planted-IsFresh val perms (g.sound.fresh path)) refl g.here
          (listing-IsFresh n (g.sound.fresh p)) refl;
    here = ground (arith, now path, planted-valid val perms (g.sound.fresh path));
    kept = λ j v. ground (arith, now j, g.kept j v);
    only = λ j v. elim (text_dec path j) [
      | yes e ↦ inr (subst (λ k. OnBranch k path) e self)
      | no away ↦ wider (g.only j (ground (arith, now j, g.here)))
    ];
    tables = λ j. ground (arith, now j, g.tables j, g.tables path, g.tables p);
  }
    where
      wider :
          {j : Text}
          → (is_valid j db ≡ true) ⊎ OnBranch j p
          → (is_valid j db ≡ true) ⊎ OnBranch j path
      wider (inl v) = inl v
      wider (inr o) = inr (above up o)

  pub Grown-root :
      basename path ≡ none
      → is_valid path db ≡ false
      → IsSound db
      → ((j : Text) → at j db' ≡ ite (text_dec path j) (planted val perms (at path db)) (at j db))
      → Grown path db db'
  Grown-root up off s now = record {
    sound =
        place-IsSound path _ s (planted-valid val perms (s.fresh path))
          (planted-IsFresh val perms (s.fresh path)) refl (inr up) now;
    here = ground (arith, now path, planted-valid val perms (s.fresh path));
    kept = λ j v. ground (arith, now j);
    only = λ j v. elim (text_dec path j) [
      | yes e ↦ inr (subst (λ k. OnBranch k path) e self)
      | no away ↦ inl (ground (arith, now j))
    ];
    tables = λ j. ground (arith, now j);
  }

pub Born-branch :
    {path p n : Text} (val : Text) (d : Database) {db' : Database}
    → basename path ≡ some (p, n)
    → ((j : Text)
        → at j db'
          ≡ ite
              (text_dec path j)
              (planted val (at p d).e.perms (at path d))
              (ite (text_dec p j) (listing n (at p d)) (at j d)))
    → Born path val db'
Born-branch {path} {p} {n} val d up now = record {
  value = ground (arith, now path);
  inherits = λ q m v. ground (arith, now path, now p, parent-ne path p n up);
  root = λ v. cc;
}

pub Born-root :
    {path : Text} (val : Text) (d : Database) {db' : Database}
    → basename path ≡ none
    → ((j : Text) → at j db' ≡ ite (text_dec path j) (planted val root_perms (at path d)) (at j d))
    → Born path val db'
Born-root {path} val d up now = record {
  value = ground (arith, now path);
  inherits = λ q m v. cc;
  root = λ v. ground (arith, now path);
}

-- The same records before.
pub Grown-of_at :
    {path : Text} {db d db' : Database}
    → ((j : Text) → at j d ≡ at j db)
    → Grown path d db'
    → Grown path db db'
Grown-of_at same g = record {
  sound = g.sound;
  here = g.here;
  kept = λ j v. ground (arith, same j, g.kept j);
  only = λ j v. rw (same j) at (g.only j v);
  tables = λ j. ground (arith, same j, g.tables j);
}
