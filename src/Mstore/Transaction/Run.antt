-- ===== src/Mstore/Transaction/Run.antt =====
-- A deletion inside of a transaction, and any sequence of its operations: they end, and change no
-- entry of the database.
use mathlib.Core.Path.{subst}
use lixs.Base.{
  ℕ, zero, suc, ◌+◌, ◌≡◌, Option, none, some, List, [], ◌∷◌, arith, refl, inl, inr, Bool-cases,
  Option-cases,
}
use lixs.Base.Key.{nat_key}
use lixs.Base.Text.{Text, text_key}
use lixs.Errno.{Status}
use lixs.Permissions.{PermissionList, has_write_access}
use lixs.Util.{join}
use lixs.Mstore.Transaction.{
  State, get_tentry, fetch_tentry_data, fetch_tentry_children, create, read, update, delete_all,
  del_body, del_from, del, delete_branch, get_children, get_perms, set_perms, tentry, te_valid,
  longest,
}
use lixs.Mstore.Transaction.Total.{del_total}
use lixs.Mstore.Transaction.Hidden.{
  Hidden, Hidden-refl, Hidden-trans, get_tentry-Hidden, children-Hidden, unregister-Hidden,
  edit_bump-Hidden,
}
use lixs.Mstore.Transaction.Isolation.{
  here-data, create-Hidden, read-Hidden, update-Hidden, get_children-Hidden, get_perms-Hidden,
  set_perms-Hidden,
}

-- The result of a deletion, if there is one.
abbrev Hides {ℓ} : {A : Type ℓ} → ℕ → State → Option (A × State) → Type 0
Hides id s none = Unit
Hides id s (some r) = Hidden id s r.1

delete_all-Hidden :
    (id : ℕ) (del : Text → State → Option (Status × State)) (path : Text) (cs : List Text)
    (s : State) {t : State}
    → ((p : Text) (u : State) → Hides id u (del p u))
    → delete_all del path cs s ≡ some t
    → Hidden id s t
unfolding delete_all
delete_all-Hidden id del path [] s {t} rec e =
    let same : s ≡ t = cc in subst (Hidden id s) same (Hidden-refl id s)
delete_all-Hidden id del path (c ∷ cs) s rec e = elim (Option-cases (del (join path c) s)) [
  | inl z ↦ absurd (ground arith)
  | inr ((r, u), z) ↦
      Hidden-trans (subst (Hides id s) z (rec (join path c) s))
        (delete_all-Hidden id del path cs u rec (rw (z, delete_all) at e))
]

abbrev with_data : ℕ → Text → State → State
with_data id path s = fetch_tentry_data id path (get_tentry id path s)

abbrev with_children : ℕ → Text → State → State
with_children id path s = fetch_tentry_children id path (with_data id path s)

del_body-Hides :
    (id cid : ℕ) (del : Text → State → Option (Status × State)) (path : Text) (s : State)
    → ((p : Text) (u : State) → Hides id u (del p u))
    → Hides id s (del_body del id cid path s)
unfolding del_body
del_body-Hides id cid del path s rec =
    elim (Bool-cases (te_valid (tentry id path (get_tentry id path s)))) [
      | inr e ↦ rw (e, del_body) (get_tentry-Hidden id path s)
      | inl e ↦
          elim (Bool-cases (has_write_access cid (tentry id path (with_data id path s)).perms)) [
            | inr denied ↦ rw (e, del_body) (rw (denied, del_body) (here-data id path s cid))
            | inl may ↦ elim (Option-cases (delete_branch del id path (with_children id path s))) [
              | inl z ↦ rw (e, del_body) (rw (may, del_body) (rw (z, del_body) tt))
              | inr (u, z) ↦
                  rw (e, del_body)
                    (rw (may, del_body)
                      (rw (z, del_body)
                        (Hidden-trans (here-data id path s cid) (
                          Hidden-trans (children-Hidden id path _) (
                            Hidden-trans (delete_all-Hidden id del path _ _ rec z) (
                              Hidden-trans (unregister-Hidden id path u)
                                (edit_bump-Hidden id path _ _)))))))
            ]
          ]
    ]

del_from-Hides :
    (fuel id cid : ℕ) (path : Text) (s : State) → Hides id s (del_from fuel id cid path s)
unfolding del_from
del_from-Hides zero id cid path s = tt
del_from-Hides (suc f) id cid path s =
    del_body-Hides id cid (del_from f id 0) path s (λ p u. del_from-Hides f id 0 p u)

-- The operations of a transaction.
pub data Call : Type 0 where
  creates : ℕ → Text → Call
  reads : ℕ → Text → Call
  updates : ℕ → Text → Text → Call
  dels : ℕ → Text → Call
  lists : ℕ → Text → Call
  gets_perms : ℕ → Text → Call
  sets_perms : ℕ → Text → PermissionList → Call

abbrev left : Option (Status × State) → Option State
left none = none
left (some (r, s)) = some s

-- The state that an operation leaves.
pub step : ℕ → Call → State → Option State
step id (creates cid path) s = some (create id cid path s).1
step id (reads cid path) s = some (read id cid path s).1
step id (updates cid path val) s = some (update id cid path val s).1
step id (dels cid path) s = left (del id cid path s)
step id (lists cid path) s = some (get_children id cid path s).1
step id (gets_perms cid path) s = some (get_perms id cid path s).1
step id (sets_perms cid path perms) s = some (set_perms id cid path perms s).1

pub run : ℕ → List Call → State → Option State
run id [] s = some s
run id (c ∷ cs) s = elim (step id c s) [ none ↦ none | some t ↦ run id cs t ]

step-Hidden : (id : ℕ) (c : Call) (s : State) → (t : State) × (step id c s ≡ some t) × Hidden id s t
unfolding step del
step-Hidden id (creates cid path) s = (_, refl, create-Hidden id cid path s)
step-Hidden id (reads cid path) s = (_, refl, read-Hidden id cid path s)
step-Hidden id (updates cid path val) s = (_, refl, update-Hidden id cid path s val)
step-Hidden id (dels cid path) s =
    let (r, e) = del_total id cid path s in
    (r.1, rw e, subst (Hides id s) e (del_from-Hides (suc (longest s.db + 1)) id cid path s))
step-Hidden id (lists cid path) s = (_, refl, get_children-Hidden id cid path s)
step-Hidden id (gets_perms cid path) s = (_, refl, get_perms-Hidden id cid path s)
step-Hidden id (sets_perms cid path perms) s = (_, refl, set_perms-Hidden id cid path s perms)

-- Whatever a transaction does before it is merged, each operation ends, no entry of the database
-- changes, no other transaction's entries change, and no sequence counter goes down.
pub run-Hidden :
    (id : ℕ) (cs : List Call) (s : State) → (t : State) × (run id cs s ≡ some t) × Hidden id s t
unfolding run
run-Hidden id [] s = (s, refl, Hidden-refl id s)
run-Hidden id (c ∷ cs) s =
    let (u, e, h) = step-Hidden id c s in
    let (t, e', h') = run-Hidden id cs u in (t, rw (e, run) e', Hidden-trans h h')

pub del-Hidden :
    (id cid : ℕ) (path : Text) (s : State)
    → (r : Status × State) × (del id cid path s ≡ some r) × Hidden id s r.1
unfolding del
del-Hidden id cid path s =
    let (r, e) = del_total id cid path s in
    (r, e, subst (Hides id s) e (del_from-Hides (suc (longest s.db + 1)) id cid path s))
