-- ===== src/Mstore/SimpleAccess/Planted.antt =====
-- What `create` and `update` leave behind once the branch is there: a written entry under a parent
-- that lists it.
use mathlib.Core.Logic.{if_pos, if_neg}
use lixs.Base.{◌≡◌, ite, none, some, [], arith, ◌≢◌, sym}
use lixs.Base.Set
use lixs.Base.Text.{Text, text_dec, text_key}
use lixs.Permissions.{PermissionList, root_perms}
use lixs.Util.{basename}
use lixs.Mstore.Database.{Record, Database, at, modify}
use lixs.Mstore.Database.Laws.{at-modify, at-modify_self, at-modify_ne}
use lixs.Mstore.SimpleAccess.{
  set_value, put_perms, mark_written, put_children, register_with_parent, get_parent_perms,
  inherit_perms,
}

abbrev pub planted : Text → PermissionList → Record → Record
planted val perms r = mark_written (put_perms perms (set_value val r))

abbrev pub listing : Text → Record → Record
listing n r = put_children (Set.insert n r.e.children) r

abbrev pub reset_then_inherit : Text → Database → Database
reset_then_inherit path d =
    modify path mark_written
      (inherit_perms path (modify path (set_value []) (register_with_parent path d)))

abbrev pub inherit_then_set : Text → Text → Database → Database
inherit_then_set path val d =
    modify path mark_written
      (modify path (set_value val) (inherit_perms path (register_with_parent path d)))

module _ (path p n : Text) (up : basename path ≡ some (p, n)) where
  register-modify : (d : Database) → register_with_parent path d ≡ modify p (listing n) d
  unfolding register_with_parent
  register-modify d = rw (up, register_with_parent)

  parent_perms-at : (d : Database) → get_parent_perms path d ≡ (at p d).e.perms
  unfolding get_parent_perms
  parent_perms-at d = rw (up, get_parent_perms)

module _ (path p n : Text) (up : basename path ≡ some (p, n)) (ne : p ≢ path) (j : Text)
    (d : Database) where
  ne' : path ≢ p
  ne' e = ne (sym e)

  pub reset-at :
      at j (reset_then_inherit path d)
      ≡ ite
          (text_dec path j)
          (planted [] (at p d).e.perms (at path d))
          (ite (text_dec p j) (listing n (at p d)) (at j d))
  reset-at = elim (text_dec path j) [
    | yes here ↦
        rw (if_pos _ here, ← here, register-modify path p n up, parent_perms-at path p n up)
          (simp (at-modify_self, at-modify_ne ne, at-modify_ne ne'))
    | no away ↦
        rw (if_neg _ away, register-modify path p n up) (simp (at-modify_ne away, at-modify))
  ]

  pub set-at :
      (val : Text)
      → at j (inherit_then_set path val d)
        ≡ ite
            (text_dec path j)
            (planted val (at p d).e.perms (at path d))
            (ite (text_dec p j) (listing n (at p d)) (at j d))
  set-at val = elim (text_dec path j) [
    | yes here ↦
        rw (if_pos _ here, ← here, register-modify path p n up, parent_perms-at path p n up)
          (simp (at-modify_self, at-modify_ne ne))
    | no away ↦
        rw (if_neg _ away, register-modify path p n up) (simp (at-modify_ne away, at-modify))
  ]

module _ (path : Text) (up : basename path ≡ none) (j : Text) (d : Database) where
  pub reset_root-at :
      at j (reset_then_inherit path d)
      ≡ ite (text_dec path j) (planted [] root_perms (at path d)) (at j d)
  unfolding register_with_parent get_parent_perms
  reset_root-at = rw (up, register_with_parent, get_parent_perms) (simp at-modify (ground arith))

  pub set_root-at :
      (val : Text)
      → at j (inherit_then_set path val d)
        ≡ ite (text_dec path j) (planted val root_perms (at path d)) (at j d)
  unfolding register_with_parent get_parent_perms
  set_root-at val = rw (up, register_with_parent, get_parent_perms) (simp at-modify (ground arith))
