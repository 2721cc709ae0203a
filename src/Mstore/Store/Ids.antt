-- ===== src/Mstore/Store/Ids.antt =====
-- The ids of transactions: fresh ones, and those of transactions that have ended.
use lixs.Base.{ℕ, ◌+◌, ◌%◌, ◌<◌, ◌≡◌, ◌≢◌, none, some, [], arith, refl, inl, inr, Option-cases, ite}
use lixs.Base.Key.{nat_key}
use native.Mathlib.Decide.{ℕ_discrete}
use lixs.Base.Map
use lixs.Base.Set.{Set}
use lixs.Base.Text.{Text}
use lixs.Errno.{err, enoent}
use lixs.Mstore.Store.{Store, uint_mod, branch, merge, abort}

-- Every open transaction has an id below the next one, which has not come round to 0.
pub record IsOpen (st : Store) : Type 0 where
  pub below_next : (tid : ℕ) (t : Set Text) → Map.find tid st.trans ≡ some t → tid < st.next_tid
  pub positive : 0 < st.next_tid

branched-IsOpen :
    (st : Store)
    → IsOpen st
    → IsOpen
        (record { db = st.db; next_tid = st.next_tid + 1; trans = Map.put st.next_tid [] st.trans })
branched-IsOpen st o = record {
  below_next = λ tid t e. elim (ℕ_discrete st.next_tid tid) [
    | yes same ↦ ground arith
    | no other ↦
        let e' : Map.find tid st.trans ≡ some t =
          (let p = Map.find-put st.next_tid tid [] st.trans in ground arith) in
        let lt = o.below_next tid t e' in ground arith
  ];
  positive = omega arith;
}

-- Where each open transaction has an id below the next one, which is not 0, and short of the wrap
-- of the counter: `branch` keeps this, opens an empty transaction under an id that is not 0 and
-- that no transaction has, and leaves the database and the other transactions alone.
pub branch-IsOpen :
    (st : Store)
    → IsOpen st
    → st.next_tid + 1 < uint_mod
    → IsOpen (branch st).1
      × ((branch st).0 ≢ 0)
      × (Map.find (branch st).0 st.trans ≡ none)
      × ((branch st).1.db ≡ st.db)
      × ((tid : ℕ)
          → Map.find tid (branch st).1.trans
            ≡ ite (ℕ_discrete (branch st).0 tid) (some []) (Map.find tid st.trans))
unfolding branch
branch-IsOpen st o small =
    let next : (st.next_tid + 1) % uint_mod ≡ st.next_tid + 1 = omega arith in
    let free : Map.find st.next_tid st.trans ≡ none =
      elim (Option-cases (Map.find st.next_tid st.trans)) [
        | inl e ↦ e
        | inr (t, e) ↦ (let lt = o.below_next st.next_tid t e in ground arith)
      ] in
    rw (free, next)
      (
        branched-IsOpen st o,
        (let p = o.positive in ground arith),
        refl,
        refl,
        λ tid. Map.find-put st.next_tid tid [] st.trans,
      )

merge-unknown :
    (tid : ℕ) (st : Store) → Map.find tid st.trans ≡ none → merge tid st ≡ (err enoent, st)
unfolding merge
merge-unknown tid st e = rw (e, merge)

abort-unknown :
    (tid : ℕ) (st : Store) → Map.find tid st.trans ≡ none → abort tid st ≡ (err enoent, st)
unfolding abort
abort-unknown tid st e = rw (e, abort)

erase-unknown : (tid : ℕ) (m : Map.Map ℕ (Set Text)) → Map.find tid (Map.erase tid m) ≡ none
erase-unknown tid m = rw (Map.find-erase tid tid m) (ground arith)

merge-ended : (tid : ℕ) (st : Store) → Map.find tid (merge tid st).1.trans ≡ none
unfolding merge
merge-ended tid st = elim (Option-cases (Map.find tid st.trans)) [
  | inl e ↦ rw (e, merge) e
  | inr (t, e) ↦ rw (e, merge) (erase-unknown tid st.trans)
]

abort-ended : (tid : ℕ) (st : Store) → Map.find tid (abort tid st).1.trans ≡ none
unfolding abort
abort-ended tid st = elim (Option-cases (Map.find tid st.trans)) [
  | inl e ↦ rw (e, abort) e
  | inr (t, e) ↦ rw (e, abort) (erase-unknown tid st.trans)
]

-- A transaction ends once: after `merge` and after `abort`, a second `merge` or `abort` of its id
-- reports `enoent` and leaves the store as it is.
pub merge_once :
    (tid : ℕ) (st : Store)
    → (merge tid (merge tid st).1 ≡ (err enoent, (merge tid st).1))
      × (abort tid (merge tid st).1 ≡ (err enoent, (merge tid st).1))
      × (merge tid (abort tid st).1 ≡ (err enoent, (abort tid st).1))
      × (abort tid (abort tid st).1 ≡ (err enoent, (abort tid st).1))
merge_once tid st = (
  merge-unknown tid _ (merge-ended tid st),
  abort-unknown tid _ (merge-ended tid st),
  merge-unknown tid _ (abort-ended tid st),
  abort-unknown tid _ (abort-ended tid st),
)
