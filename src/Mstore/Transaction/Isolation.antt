-- ===== src/Mstore/Transaction/Isolation.antt =====
-- Until it is merged a transaction is invisible: no operation of it changes an entry of the
-- database, or what another transaction holds.
use lixs.Base.{ℕ, zero, suc, Bool, inl, inr, Bool-cases}
use lixs.Base.Key.{nat_key}
use lixs.Base.Text.{Text, length, text_key}
use lixs.Permissions.{PermissionList}
use lixs.Mstore.Database.{TEntry, Record}
use lixs.Mstore.Transaction.{
  State, edit, edit_bump, get_tentry, fetch_tentry_data, register_with_parent, inherit_perms,
  ensure_branch, create_body, create_from, create, read, update, get_children, get_perms, set_perms,
  mark_written, put_value, tentry, te_valid,
}
use lixs.Mstore.Transaction.Hidden.{
  branch-Hidden, Hidden, Hidden-refl, Hidden-trans, Ends, Ends-pair, Ends-if, edit-Hidden,
  edit_bump-Hidden, get_tentry-Hidden, data-Hidden, children-Hidden, register-Hidden,
  inherit-Hidden,
}

module _ (id : ℕ) (path : Text) (s : State) (cid : ℕ) where
  pub here-data : Hidden id s (fetch_tentry_data id path (get_tentry id path s))
  here-data = Hidden-trans (get_tentry-Hidden id path s) (data-Hidden id path _)

  entered :
      (f : ℕ → Text → State → Bool × State)
      → ((p : Text) (t : State) → Hidden id t (f cid p t).1)
      → Hidden id s (register_with_parent id path (ensure_branch f cid path (get_tentry id path s)))
  entered f rec = Hidden-trans (get_tentry-Hidden id path s) (
      Hidden-trans (branch-Hidden id path (get_tentry id path s) f cid rec)
        (register-Hidden id path _))

  create_body-Hidden :
      (f : ℕ → Text → State → Bool × State)
      → ((p : Text) (t : State) → Hidden id t (f cid p t).1)
      → Hidden id s (create_body id f cid path s).1
  unfolding create_body
  create_body-Hidden f rec = elim (Bool-cases (te_valid (tentry id path (get_tentry id path s)))) [
    | inl e ↦ rw e (get_tentry-Hidden id path s)
    | inr e ↦ rw e (
        Hidden-trans (entered f rec) (
          Hidden-trans (edit-Hidden id path _ _)
            (Hidden-trans (inherit-Hidden id path _) (edit_bump-Hidden id path _ _))))
  ]

create_from-Hidden :
    (fuel id cid : ℕ) (path : Text) (s : State) → Hidden id s (create_from fuel id cid path s).1
unfolding create_from
create_from-Hidden zero id cid path s = Hidden-refl id s
create_from-Hidden (suc f) id cid path s =
    create_body-Hidden id path s cid (create_from f id) (λ p t. create_from-Hidden f id cid p t)

module _ (id cid : ℕ) (path : Text) (s : State) where
  pub create-Hidden : Hidden id s (create id cid path s).1
  unfolding create
  create-Hidden = create_from-Hidden (suc (length path)) id cid path s

module _ (id cid : ℕ) (path : Text) (s : State) where
  fetched {ℓ} :
      {A : Type ℓ} (a : A) → Ends id s (a, fetch_tentry_data id path (get_tentry id path s))
  fetched a = Ends-pair a (here-data id path s cid)

  absent {ℓ} : {A : Type ℓ} (a : A) → Ends id s (a, get_tentry id path s)
  absent a = Ends-pair a (get_tentry-Hidden id path s)

  read-Ends : Ends id s (read id cid path s)
  unfolding read
  read-Ends = search (Ends-if, fetched, absent)

  get_perms-Ends : Ends id s (get_perms id cid path s)
  unfolding get_perms
  get_perms-Ends = search (Ends-if, fetched, absent)

  get_children-Ends : Ends id s (get_children id cid path s)
  unfolding get_children
  get_children-Ends = search (
    Ends-if,
    Ends-pair,
    fetched,
    absent,
    Hidden-trans (here-data id path s cid) (children-Hidden id path _),
  )

  written :
      (f : Record → TEntry → TEntry)
      → Hidden id s (
          edit_bump id path mark_written
            (edit id path f (fetch_tentry_data id path (get_tentry id path s))))
  written f =
      Hidden-trans (here-data id path s cid)
        (Hidden-trans (edit-Hidden id path f _) (edit_bump-Hidden id path mark_written _))

  set_perms-Ends : (perms : PermissionList) → Ends id s (set_perms id cid path perms s)
  unfolding set_perms
  set_perms-Ends perms = search (Ends-if, Ends-pair, fetched, absent, written)

  planted :
      (val : Text)
      → Hidden id s (
          edit_bump id path mark_written (
            edit id path (put_value val) (
              inherit_perms id path (
                register_with_parent id path
                  (ensure_branch (create id) cid path (get_tentry id path s))))))
  planted val = Hidden-trans (entered id path s cid (create id) (λ p t. create-Hidden id cid p t)) (
      Hidden-trans (inherit-Hidden id path _)
        (Hidden-trans (edit-Hidden id path _ _) (edit_bump-Hidden id path _ _)))

  update-Ends : (val : Text) → Ends id s (update id cid path val s)
  unfolding update
  update-Ends val = search (Ends-if, Ends-pair, fetched, written, planted val)

  pub read-Hidden : Hidden id s (read id cid path s).1
  read-Hidden = (read-Ends).hidden

  pub get_perms-Hidden : Hidden id s (get_perms id cid path s).1
  get_perms-Hidden = (get_perms-Ends).hidden

  pub get_children-Hidden : Hidden id s (get_children id cid path s).1
  get_children-Hidden = (get_children-Ends).hidden

  pub set_perms-Hidden : (perms : PermissionList) → Hidden id s (set_perms id cid path perms s).1
  set_perms-Hidden perms = (set_perms-Ends perms).hidden

  pub update-Hidden : (val : Text) → Hidden id s (update id cid path val s).1
  update-Hidden val = (update-Ends val).hidden
