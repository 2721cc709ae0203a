-- ===== src/Mstore/Transaction/Outcome.antt =====
-- `merge` as a whole: all of the transaction's changes, or none.
use mathlib.Core.Path.{ap, sym}
use lixs.Base.{ℕ, ◌≡◌, ◌∙◌, true, false, [], arith, refl, inl, inr, Bool-cases, if◌then◌else◌}
use lixs.Base.Key.{nat_key}
use lixs.Base.Set
use lixs.Base.Text.{Text, text_key}
use lixs.Mstore.Database.{Record, at}
use lixs.Mstore.Transaction.{State}
use lixs.Mstore.Transaction.Merge.{drop_te, can_merge, merge_entry, merge, abort}
use lixs.Mstore.Transaction.Commit.{merged, settle, merged_lem, do_merge-at, left_te}
use lixs.Mstore.Transaction.Abort.{aborted, abort_all-at}
use lixs.Mstore.Transaction.Conflict.{Checked, can_merge-Checked, can_merge-elsewhere}

drop-merge_entry-Checked :
    (id : ℕ) (r q : Record)
    → Checked id r q
    → drop_te id (merge_entry id q) ≡ drop_te id (merge_entry id r)
unfolding merge_entry
drop-merge_entry-Checked id r q c =
    ground (arith, c.entry, c.next, c.own, c.others, left_te id q, left_te id r)

merged-Checked : (id : ℕ) (r q : Record) → Checked id r q → merged id q ≡ merged id r
merged-Checked id r q c =
    merged_lem id q ∙ ap settle (drop-merge_entry-Checked id r q c) ∙ sym (merged_lem id r)

aborted-Checked : (id : ℕ) (r q : Record) → Checked id r q → aborted id q ≡ aborted id r
unfolding aborted
aborted-Checked id r q c = ground (arith, c.entry, c.next, c.others)

-- If `merge` succeeds, every path that the transaction referred to has its merged record, and every
-- other path the record that it had; if it fails, each has the record without the transaction's
-- entry. Either way the transaction is over.
pub merge-at :
    (id : ℕ) (s : State) (j : Text)
    → ((merge id s).1.records ≡ [])
      × ((merge id s).0 ≡ true
          → at j (merge id s).1.db
            ≡ (if Set.has j s.records then merged id (at j s.db) else at j s.db))
      × ((merge id s).0 ≡ false
          → at j (merge id s).1.db
            ≡ (if Set.has j s.records then aborted id (at j s.db) else at j s.db))
unfolding merge abort
merge-at id s j =
    let paths = s.records in
    let checked = can_merge-Checked id paths j s.db in
    let here = at j (can_merge id paths s.db).1 in
    elim (Bool-cases (can_merge id paths s.db).0) [
      | inl ok ↦ rw ok (
        refl,
        λ e. ground (
          arith,
          do_merge-at id paths j (can_merge id paths s.db).1,
          merged-Checked id (at j s.db) here checked,
          can_merge-elsewhere id paths j s.db,
        ),
        λ e. cc,
      )
      | inr bad ↦ rw bad (
        refl,
        λ e. cc,
        λ e. ground (
          arith,
          abort_all-at id paths j (can_merge id paths s.db).1,
          aborted-Checked id (at j s.db) here checked,
          can_merge-elsewhere id paths j s.db,
        ),
      )
    ]

-- A merge is all or nothing: at every path that the transaction referred to, the record is the
-- merged one if `merge` succeeds, and the old one less the transaction's entry if it fails. Every
-- other path has the record that it had, and the transaction refers to no path any more.
pub merge_atomic :
    (id : ℕ) (s : State) (j : Text)
    → ((merge id s).1.records ≡ [])
      × (at j (merge id s).1.db ≡ (
          if Set.has j s.records
          then (if (merge id s).0 then merged id (at j s.db) else aborted id (at j s.db))
          else at j s.db))
merge_atomic id s j =
    let (over, good, bad) = merge-at id s j in
    (over, elim (Bool-cases (merge id s).0) [ inl e ↦ rw e (good e) | inr e ↦ rw e (bad e) ])
