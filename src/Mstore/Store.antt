-- ===== src/Mstore/Store.antt =====
-- lib/lixs/mstore/store.cc: the store, which hands each operation to the database or to one of its
-- transactions. A transaction object is the set of the paths that it has referred to; the rest of
-- it is in the records of the shared database.
pub mod Dispatch
pub mod Ids
use lixs.Base.{
  ℕ, zero, suc, ◌+◌, ◌%◌, ◌^◌, Bool, true, false, Option, none, some, [], ◌∷◌, ◌==◌, if◌then◌else◌,
}
use lixs.Base.Key.{nat_key}
use lixs.Base.Map
use lixs.Base.Map.{Map}
use lixs.Base.Set.{Set}
use lixs.Base.Text.{Text}
use lixs.Errno.{Status, Result, ok, err, enoent, einval}
use lixs.Permissions.{PermissionList}
use lixs.Util.{slash}
use lixs.Mstore.Database.{Database}
use lixs.Mstore.SimpleAccess
use lixs.Mstore.Transaction
use lixs.Mstore.Transaction.{State}
use lixs.Mstore.Transaction.Merge

pub record Store : Type 0 where
  pub db : Database
  pub next_tid : ℕ
  pub trans : Map ℕ (Set Text)

abbrev pub init : Store
init = record { db = []; next_tid = 1; trans = [] }

-- `unsigned int`
abbrev pub uint_mod : ℕ
uint_mod = 2 ^ 32

-- `if (path.back() == '/') path.pop_back()`; `back` of an empty string is undefined in the source,
-- and here the empty path stays as it is.
unfoldable pub strip : Text → Text
strip [] = []
strip (c ∷ []) = if c == slash then [] else c ∷ []
strip (c ∷ d ∷ s) = c ∷ strip (d ∷ s)

abbrev insert_new : ℕ → Option (Set Text) → Map ℕ (Set Text) → Map ℕ (Set Text)
insert_new tid none m = Map.put tid [] m
insert_new tid (some t) m = m

-- `std::map::insert` keeps what is there.
unfoldable pub branch : Store → ℕ × Store
branch st = (
  st.next_tid,
  record st {
    next_tid = (st.next_tid + 1) % uint_mod;
    trans = insert_new st.next_tid (Map.find st.next_tid st.trans) st.trans;
  },
)

unfoldable pub merge : ℕ → Store → Result Bool × Store
merge tid st = elim (Map.find tid st.trans) [
  | none ↦ (err enoent, st)
  | some records ↦
      let (success, t) = Merge.merge tid (record { db = st.db; records = records }) in
      (ok success, record st { db = t.db; trans = Map.erase tid st.trans })
]

unfoldable pub abort : ℕ → Store → Status × Store
abort tid st = elim (Map.find tid st.trans) [
  | none ↦ (err enoent, st)
  | some records ↦
      let t = Merge.abort tid (record { db = st.db; records = records }) in
      (ok tt, record st { db = t.db; trans = Map.erase tid st.trans })
]

-- The state that a transaction leaves, put back into the store.
abbrev pub keep : ℕ → State → Store → Store
keep tid t st = record st { db = t.db; trans = Map.put tid t.records st.trans }

module _ {A : Type 0} where
  -- `trans.find(tid)`, and the operation of the transaction if there is one.
  unfoldable pub in_trans : ℕ → (State → Result A × State) → Store → Result A × Store
  in_trans tid op st = elim (Map.find tid st.trans) [
    | none ↦ (err einval, st)
    | some records ↦
        let (r, t) = op (record { db = st.db; records = records }) in (r, keep tid t st)
  ]

abbrev as_result : Bool × State → Result Bool × State
as_result (created, t) = (ok created, t)

unfoldable pub create : ℕ → ℕ → Text → Store → Result Bool × Store
create cid tid path st =
    if tid == 0
    then (let (created, db) = SimpleAccess.create cid (strip path) st.db in
        (ok created, record st { db = db }))
    else in_trans tid (λ s. as_result (Transaction.create tid cid (strip path) s)) st

unfoldable pub read : ℕ → ℕ → Text → Store → Result Text × Store
read cid tid path st =
    if tid == 0
    then (SimpleAccess.read cid (strip path) st.db, st)
    else in_trans tid (Transaction.read tid cid (strip path)) st

unfoldable pub update : ℕ → ℕ → Text → Text → Store → Status × Store
update cid tid path val st =
    if tid == 0
    then (let (r, db) = SimpleAccess.update cid (strip path) val st.db in
        (r, record st { db = db }))
    else in_trans tid (Transaction.update tid cid (strip path) val) st

abbrev simple_left : Store → Option (Status × Database) → Option (Status × Store)
simple_left st none = none
simple_left st (some (r, db)) = some (r, record st { db = db })

abbrev trans_left : ℕ → Store → Option (Status × State) → Option (Status × Store)
trans_left tid st none = none
trans_left tid st (some (r, t)) = some (r, keep tid t st)

-- `none` stands for a deletion that does not end.
unfoldable pub del : ℕ → ℕ → Text → Store → Option (Status × Store)
del cid tid path st =
    if tid == 0
    then simple_left st (SimpleAccess.del cid (strip path) st.db)
    else elim (Map.find tid st.trans) [
      | none ↦ some (err einval, st)
      | some records ↦
          trans_left tid st
            (Transaction.del tid cid (strip path) (record { db = st.db; records = records }))
    ]

unfoldable pub get_children : ℕ → ℕ → Text → Store → Result (Set Text) × Store
get_children cid tid path st =
    if tid == 0
    then (SimpleAccess.get_children cid (strip path) st.db, st)
    else in_trans tid (Transaction.get_children tid cid (strip path)) st

unfoldable pub get_perms : ℕ → ℕ → Text → Store → Result PermissionList × Store
get_perms cid tid path st =
    if tid == 0
    then (SimpleAccess.get_perms cid (strip path) st.db, st)
    else in_trans tid (Transaction.get_perms tid cid (strip path)) st

unfoldable pub set_perms : ℕ → ℕ → Text → PermissionList → Store → Status × Store
set_perms cid tid path perms st =
    if tid == 0
    then (let (r, db) = SimpleAccess.set_perms cid (strip path) perms st.db in
        (r, record st { db = db }))
    else in_trans tid (Transaction.set_perms tid cid (strip path) perms) st
