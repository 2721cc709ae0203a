-- ===== src/Mstore/SimpleAccess/Create.antt =====
-- `create` and `update`: the walk to the root ends, and what they leave behind.
use mathlib.Core.Path.{subst}
use lixs.Base.{
  ℕ, zero, suc, ◌<◌, ◌≡◌, true, false, not, Bool, none, some, [], arith, ap, inl, inr, refl,
  Bool-cases, Option-cases, ite, ◌≢◌, ◌⊎◌,
}
use lixs.Base.Text.{Text, length, text_dec, text_key}
use lixs.Errno.{Status, ok, err, eacces}
use lixs.Permissions.{has_write_access, root_perms}
use lixs.Util.{basename}
use lixs.Util.Basename.{parent-lt}
use lixs.Mstore.Database.{Database, at, touch, is_valid, modify}
use lixs.Mstore.Database.Laws.{at-touch, at-modify}
use lixs.Mstore.Database.Sound.{IsSound, IsSound-of_at, parent-ne, place-IsSound}
use lixs.Mstore.SimpleAccess.{
  create_body, create_from, create, ensure_branch, update, mark_written, set_value,
}
use lixs.Mstore.SimpleAccess.Planted.{
  reset_then_inherit, inherit_then_set, reset-at, reset_root-at, set-at, set_root-at,
}
use lixs.Mstore.SimpleAccess.Grown.{
  Grown, Grown-branch, Grown-root, Born, Born-branch, Born-root, Grown-of_at, OnBranch,
}

abbrev Creator : Type 0
Creator = ℕ → Text → Database → Bool × Database

-- The body calls `create` for the parent alone.
module _ (f g : Creator) (cid : ℕ) (path : Text) where
  ensure_branch-congr :
      (d : Database)
      → ((p n : Text) → basename path ≡ some (p, n) → f cid p d ≡ g cid p d)
      → ensure_branch f cid path d ≡ ensure_branch g cid path d
  unfolding ensure_branch
  ensure_branch-congr d same = elim (Option-cases (basename path)) [
    | inl up ↦ rw (up, ensure_branch)
    | inr ((p, n), up) ↦ rw (up, ensure_branch) (ap (λ r. r.1) (same p n up))
  ]

  create_body-congr :
      (db : Database)
      → ((p n : Text) (d : Database) → basename path ≡ some (p, n) → f cid p d ≡ g cid p d)
      → create_body f cid path db ≡ create_body g cid path db
  unfolding create_body
  create_body-congr db same =
      rw (ensure_branch-congr (touch path db) (λ p n up. same p n (touch path db) up))

create_from-fuel :
    (f g cid : ℕ) (path : Text) (db : Database)
    → length path < f
    → length path < g
    → create_from f cid path db ≡ create_from g cid path db
unfolding create_from
create_from-fuel zero g cid path db h k = absurd (omega arith)
create_from-fuel (suc f) zero cid path db h k = absurd (omega arith)
create_from-fuel (suc f) (suc g) cid path db h k =
    create_body-congr (create_from f) (create_from g) cid path db λ p n d up.
      create_from-fuel f g cid p d (omega (arith, parent-lt path up))
        (omega (arith, parent-lt path up))

-- The fuel is enough: `create` is the function that the source writes, whose body calls itself.
pub create-create_body :
    (cid : ℕ) (path : Text) (db : Database) → create cid path db ≡ create_body create cid path db
unfolding create
create-create_body cid path db =
    create_body-congr (create_from (length path)) create cid path db λ p n d up.
      create_from-fuel (length path) (suc (length p)) cid p d (parent-lt path up) (omega arith)

pub record Created (path : Text) (db : Database) (r : Bool × Database) : Type 0 where
  pub created : r.0 ≡ not (is_valid path db)
  pub grown : Grown path db r.1
  pub born : is_valid path db ≡ false → Born path [] r.1

module _ (path : Text) (cid : ℕ) (db : Database) (s : IsSound db) where
  touch-IsSound : IsSound (touch path db)
  touch-IsSound = IsSound-of_at (λ j. at-touch path j db) s

  Grown-touch : is_valid path db ≡ true → Grown path db (touch path db)
  Grown-touch v = record {
    sound = touch-IsSound;
    here = rw at-touch v;
    kept = λ j w. ground (arith, at-touch path j db);
    only = λ j w. inl (rw at-touch at w);
    tables = λ j. rw at-touch;
  }

  module _ (f : Creator)
      (rec : (p n : Text) (d : Database)
        → basename path ≡ some (p, n)
        → IsSound d
        → Grown p d (f cid p d).1)
      (off : is_valid path db ≡ false) where
    branch : Database
    branch = ensure_branch f cid path (touch path db)

    branch-some : {p n : Text} → basename path ≡ some (p, n) → branch ≡ (f cid p (touch path db)).1
    unfolding branch ensure_branch
    branch-some up = rw (up, ensure_branch)

    branch-none : basename path ≡ none → branch ≡ touch path db
    unfolding branch ensure_branch
    branch-none up = rw (up, ensure_branch)

    Grown-branch-some : {p n : Text} → basename path ≡ some (p, n) → Grown p db branch
    Grown-branch-some {p} {n} up =
        Grown-of_at (λ j. at-touch path j db)
          (rw (branch-some up) (rec p n (touch path db) up touch-IsSound))

    reset-Grown : Grown path db (reset_then_inherit path branch)
    reset-Grown = elim (Option-cases (basename path)) [
      | inl up ↦ rw (branch-none up) (
          Grown-of_at (λ j. at-touch path j db)
            (Grown-root path [] root_perms up (rw at-touch off) touch-IsSound
              λ j. reset_root-at path up j (touch path db)))
      | inr ((p, n), up) ↦
          Grown-branch path [] (at p branch).e.perms up off (Grown-branch-some up)
            λ j. reset-at path p n up (parent-ne path p n up) j branch
    ]

    set-Grown : (val : Text) → Grown path db (inherit_then_set path val branch)
    set-Grown val = elim (Option-cases (basename path)) [
      | inl up ↦ rw (branch-none up) (
          Grown-of_at (λ j. at-touch path j db)
            (Grown-root path val root_perms up (rw at-touch off) touch-IsSound
              λ j. set_root-at path up j (touch path db) val))
      | inr ((p, n), up) ↦
          Grown-branch path val (at p branch).e.perms up off (Grown-branch-some up)
            λ j. set-at path p n up (parent-ne path p n up) j branch val
    ]

reset-Born : (path : Text) (d : Database) → Born path [] (reset_then_inherit path d)
reset-Born path d = elim (Option-cases (basename path)) [
  | inl up ↦ Born-root [] d up (λ j. reset_root-at path up j d)
  | inr ((p, n), up) ↦ Born-branch [] d up (λ j. reset-at path p n up (parent-ne path p n up) j d)
]

set-Born : (path val : Text) (d : Database) → Born path val (inherit_then_set path val d)
set-Born path val d = elim (Option-cases (basename path)) [
  | inl up ↦ Born-root val d up (λ j. set_root-at path up j d val)
  | inr ((p, n), up) ↦
      Born-branch val d up (λ j. set-at path p n up (parent-ne path p n up) j d val)
]

create_body-Created :
    (path : Text) (cid : ℕ) (db : Database) (s : IsSound db) (f : Creator)
    → ((p n : Text) (d : Database)
        → basename path ≡ some (p, n)
        → IsSound d
        → Grown p d (f cid p d).1)
    → Created path db (create_body f cid path db)
unfolding create_body branch
create_body-Created path cid db s f rec = elim (Bool-cases (is_valid path db)) [
  | inl v ↦
      rw (at-touch, v)
        (record { created = rw v; grown = Grown-touch path cid db s v; born = λ off. cc })
  | inr off ↦
      rw (at-touch, off)
        (record {
          created = rw off;
          grown = reset-Grown path cid db s f rec off;
          born = λ off. reset-Born path (ensure_branch f cid path (touch path db));
        })
]

create_from-Created :
    (fuel cid : ℕ) (path : Text) (db : Database)
    → length path < fuel
    → IsSound db
    → Created path db (create_from fuel cid path db)
unfolding create_from
create_from-Created zero cid path db h s = absurd (omega arith)
create_from-Created (suc f) cid path db h s =
    create_body-Created path cid db s (create_from f)
      λ p n d up t. (create_from-Created f cid p d (omega (arith, parent-lt path up)) t).grown

-- From a sound database
pub create-Created :
    (cid : ℕ) (path : Text) (db : Database) → IsSound db → Created path db (create cid path db)
unfolding create
create-Created cid path db s = create_from-Created (suc (length path)) cid path db (omega arith) s

-- `update` of a path that is not there, or that this client may write.
pub record Updated (path val : Text) (db : Database) (r : Status × Database) : Type 0 where
  pub status : r.0 ≡ ok tt
  pub sound : IsSound r.1
  pub here : is_valid path r.1 ≡ true
  pub value : (at path r.1).e.value ≡ val
  pub kept :
      (j : Text)
      → j ≢ path
      → is_valid j db ≡ true
      → (is_valid j r.1 ≡ true)
        × ((at j r.1).e.value ≡ (at j db).e.value)
        × ((at j r.1).e.perms ≡ (at j db).e.perms)
  pub only : (j : Text) → is_valid j r.1 ≡ true → (is_valid j db ≡ true) ⊎ OnBranch j path
  pub tables : (j : Text) → (at j r.1).te ≡ (at j db).te
  pub born : is_valid path db ≡ false → Born path val r.1
  pub perms : is_valid path db ≡ true → (at path r.1).e.perms ≡ (at path db).e.perms

module _ (cid : ℕ) (path val : Text) (db : Database) (s : IsSound db) where
  overwrite-at :
      (j : Text)
      → at j (modify path mark_written (modify path (set_value val) (touch path db)))
        ≡ ite (text_dec path j) (mark_written (set_value val (at path db))) (at j db)
  overwrite-at j = simp (at-modify, at-touch) (ground arith)

  overwrite-Updated :
      is_valid path db ≡ true
      → Updated path val db
          (ok tt, modify path mark_written (modify path (set_value val) (touch path db)))
  overwrite-Updated v = record {
    status = refl;
    sound =
        place-IsSound path _ s (ground (arith, s.fresh path))
          (record {
            write = omega arith;
            delete = omega (arith, (s.fresh path).delete);
            children = omega (arith, (s.fresh path).children);
          })
          refl (inl v) overwrite-at;
    here = ground (arith, overwrite-at path, s.fresh path);
    value = ground (arith, overwrite-at path);
    kept = λ j ne w. ground (arith, overwrite-at j);
    only = λ j w. elim (text_dec path j) [
      | yes e ↦ inl (subst (λ k. is_valid k db ≡ true) e v)
      | no ne ↦ inl (ground (arith, overwrite-at j))
    ];
    tables = λ j. ground (arith, overwrite-at j);
    born = λ off. cc;
    perms = λ w. ground (arith, overwrite-at path);
  }

  pub update-Updated :
      (is_valid path db ≡ true → has_write_access cid (at path db).e.perms ≡ true)
      → Updated path val db (update cid path val db)
  unfolding update branch
  update-Updated may = elim (Bool-cases (is_valid path db)) [
    | inl v ↦ rw (at-touch, v, may v) (overwrite-Updated v)
    | inr off ↦
        let g : Grown path db (
            inherit_then_set path val
              (branch path cid db s create (λ p n d up t. (create-Created cid p d t).grown) off)) =
          set-Grown path cid db s create (λ p n d up t. (create-Created cid p d t).grown) off val in
        rw (at-touch, off)
          (record {
            status = refl;
            sound = g.sound;
            here = g.here;
            value = (set-Born path val (ensure_branch create cid path (touch path db))).value;
            kept = λ j ne w. g.kept j w;
            only = g.only;
            tables = g.tables;
            born = λ o. set-Born path val (ensure_branch create cid path (touch path db));
            perms = λ w. cc;
          })
  ]

-- A client that may not write changes no record.
pub update-eacces :
    (cid : ℕ) (path val : Text) (db : Database)
    → is_valid path db ≡ true
    → has_write_access cid (at path db).e.perms ≡ false
    → ((update cid path val db).0 ≡ err eacces)
      × ((j : Text) → at j (update cid path val db).1 ≡ at j db)
unfolding update
update-eacces cid path val db v denied = rw (at-touch, v, denied) (refl, λ j. at-touch path j db)
