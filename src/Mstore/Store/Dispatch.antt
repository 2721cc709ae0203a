-- ===== src/Mstore/Store/Dispatch.antt =====
-- The store as a whole: unknown transactions, and what a client outside sees of them.
use lixs.Base.{
  ℕ, ◌≡◌, ◌≢◌, false, Bool-cases, Option, none, some, ◌==◌, arith, refl, inl, inr, Option-cases,
}
use lixs.Base.Key.{nat_key}
use lixs.Base.Map
use lixs.Base.Text.{Text}
use lixs.Errno.{Status, Result, err, enoent, einval}
use lixs.Permissions.{PermissionList}
use lixs.Mstore.Database.{at}
use lixs.Mstore.Database.Sound.{IsSound}
use lixs.Mstore.SimpleAccess.Run
use lixs.Mstore.SimpleAccess.Reads.{read-guarded}
use lixs.Mstore.Transaction.{State}
use lixs.Mstore.Transaction.Hidden.{Hidden}
use lixs.Mstore.Transaction.Run.{del-Hidden}
use lixs.Mstore.Transaction.Isolation
use lixs.Mstore.Store.{
  Store, strip, merge, abort, keep, in_trans, create, read, update, del, get_children, get_perms,
  set_perms,
}

-- The operations, with their client and path.
pub data Call : Type 0 where
  creates reads dels lists gets_perms : ℕ → Text → Call
  updates : ℕ → Text → Text → Call
  sets_perms : ℕ → Text → PermissionList → Call

abbrev left : Option (Status × Store) → Option Store
left none = none
left (some (r, st)) = some st

-- The store that an operation leaves.
pub step : ℕ → Call → Store → Option Store
step tid (creates cid path) st = some (create cid tid path st).1
step tid (reads cid path) st = some (read cid tid path st).1
step tid (dels cid path) st = left (del cid tid path st)
step tid (lists cid path) st = some (get_children cid tid path st).1
step tid (gets_perms cid path) st = some (get_perms cid tid path st).1
step tid (updates cid path val) st = some (update cid tid path val st).1
step tid (sets_perms cid path perms) st = some (set_perms cid tid path perms st).1

-- The entries of the database are the same.
abbrev SameEntries : Store → Store → Type 0
SameEntries st st' = (j : Text) → (at j st'.db).e ≡ (at j st.db).e

in_trans-SameEntries :
    {A : Type 0} (tid : ℕ) (op : State → Result A × State) (st : Store)
    → ((s : State) → Hidden tid s (op s).1)
    → SameEntries st (in_trans tid op st).1
unfolding in_trans
in_trans-SameEntries tid op st hidden j = elim (Option-cases (Map.find tid st.trans)) [
  | inl e ↦ rw (e, in_trans)
  | inr (records, e) ↦
      rw (e, in_trans) ((hidden (record { db = st.db; records = records })).entries j)
]

read-SameEntries :
    (st st' : Store)
    → SameEntries st st'
    → (c : ℕ) (j : Text) → (read c 0 j st').0 ≡ (read c 0 j st).0
unfolding read
read-SameEntries st st' same c j =
    rw (read-guarded c (strip j) st'.db, read-guarded c (strip j) st.db, same (strip j))

step-SameEntries :
    (tid : ℕ) (c : Call) (st : Store)
    → (tid == 0) ≡ false
    → (st' : Store) × (step tid c st ≡ some st') × SameEntries st st'
unfolding step create read del update get_children get_perms set_perms
step-SameEntries tid (creates cid path) st nz = (
  _,
  refl,
  rw nz (in_trans-SameEntries tid _ st (λ s. Isolation.create-Hidden tid cid (strip path) s)),
)
step-SameEntries tid (reads cid path) st nz = (
  _,
  refl,
  rw nz (in_trans-SameEntries tid _ st (λ s. Isolation.read-Hidden tid cid (strip path) s)),
)
step-SameEntries tid (lists cid path) st nz = (
  _,
  refl,
  rw nz (in_trans-SameEntries tid _ st (λ s. Isolation.get_children-Hidden tid cid (strip path) s)),
)
step-SameEntries tid (gets_perms cid path) st nz = (
  _,
  refl,
  rw nz (in_trans-SameEntries tid _ st (λ s. Isolation.get_perms-Hidden tid cid (strip path) s)),
)
step-SameEntries tid (updates cid path val) st nz = (
  _,
  refl,
  rw nz (in_trans-SameEntries tid _ st (λ s. Isolation.update-Hidden tid cid (strip path) s val)),
)
step-SameEntries tid (sets_perms cid path perms) st nz = (
  _,
  refl,
  rw nz (
      in_trans-SameEntries tid _ st (λ s. Isolation.set_perms-Hidden tid cid (strip path) s perms)),
)
step-SameEntries tid (dels cid path) st nz = elim (Option-cases (Map.find tid st.trans)) [
  | inl e ↦ (st, rw nz (rw (e, del)), λ j. refl)
  | inr (records, e) ↦
      let s : State = record { db = st.db; records = records } in
      let (r, ran, hidden) = del-Hidden tid cid (strip path) s in
      (keep tid r.1 st, rw nz (rw (e, del) (rw ran)), hidden.entries)
]

-- An operation under an id other than 0 ends, and after it every client outside of transactions
-- reads, at every path, what it read before.
pub read-step :
    (tid : ℕ) (c : Call) (st : Store)
    → tid ≢ 0
    → (st' : Store) × (step tid c st ≡ some st')
      × ((cid : ℕ) (j : Text) → (read cid 0 j st').0 ≡ (read cid 0 j st).0)
read-step tid c st nz =
    let (st', e, same) = step-SameEntries tid c st (ground arith) in
    (st', e, read-SameEntries st st' same)

in_trans-unknown :
    {A : Type 0} (tid : ℕ) (op : State → Result A × State) (st : Store)
    → Map.find tid st.trans ≡ none
    → in_trans tid op st ≡ (err einval, st)
unfolding in_trans
in_trans-unknown tid op st e = rw (e, in_trans)

-- Under an id that is not 0 and that no transaction has, every operation reports `einval`, and
-- `merge` and `abort` report `enoent`; the store stays as it is.
pub unknown_tid :
    (tid cid : ℕ) (path : Text) (val : Text) (perms : PermissionList) (st : Store)
    → tid ≢ 0
    → Map.find tid st.trans ≡ none
    → (create cid tid path st ≡ (err einval, st))
      × (read cid tid path st ≡ (err einval, st))
      × (update cid tid path val st ≡ (err einval, st))
      × (del cid tid path st ≡ some (err einval, st))
      × (get_children cid tid path st ≡ (err einval, st))
      × (get_perms cid tid path st ≡ (err einval, st))
      × (set_perms cid tid path perms st ≡ (err einval, st))
      × (merge tid st ≡ (err enoent, st))
      × (abort tid st ≡ (err enoent, st))
unfolding create read update del get_children get_perms set_perms merge abort
unknown_tid tid cid path val perms st nz e =
    let nz' : (tid == 0) ≡ false = ground arith in
    (
      rw nz' (in_trans-unknown tid _ st e),
      rw nz' (in_trans-unknown tid _ st e),
      rw nz' (in_trans-unknown tid _ st e),
      rw nz' (rw (e, del)),
      rw nz' (in_trans-unknown tid _ st e),
      rw nz' (in_trans-unknown tid _ st e),
      rw nz' (in_trans-unknown tid _ st e),
      rw (e, merge),
      rw (e, abort),
    )

-- A deletion on a sound database ends, whatever the id.
pub del-ends :
    (cid tid : ℕ) (path : Text) (st : Store)
    → IsSound st.db
    → (r : Status × Store) × (del cid tid path st ≡ some r)
unfolding del
del-ends cid tid path st s = elim (Bool-cases (tid == 0)) [
  | inl z ↦
      (let (r, e) = Run.del-ends cid (strip path) st.db s in
        ((r.0, record st { db = r.1 }), rw (z, del) (rw e)))
  | inr nz ↦ elim (Option-cases (Map.find tid st.trans)) [
    | inl e ↦ ((err einval, st), rw nz (rw (e, del)))
    | inr (records, e) ↦
        let (r, ran, hidden) =
          del-Hidden tid cid (strip path) (record { db = st.db; records = records }) in
        ((r.0, keep tid r.1 st), rw nz (rw (e, del) (rw ran)))
  ]
]
