-- ===== src/Mstore/Transaction/Effects.antt =====
-- What clients read, outside of transactions, once a transaction has ended.
use lixs.Base.{ℕ, ◌<◌, ◌≡◌, true, false, none, arith, if◌then◌else◌}
use lixs.Base.Key.{nat_key}
use lixs.Base.Map
use lixs.Base.Set
use lixs.Base.Text.{Text, text_key}
use lixs.Errno.{ok, err, eacces}
use lixs.Permissions.{has_read_access}
use lixs.Mstore.Database.{Record, at, is_valid}
use lixs.Mstore.Database.Sound.{IsFresh}
use lixs.Mstore.SimpleAccess
use lixs.Mstore.SimpleAccess.Reads.{read-guarded, guarded}
use lixs.Mstore.Transaction.{State, te_of, te_valid}
use lixs.Mstore.Transaction.Merge.{merge, abort}
use lixs.Mstore.Transaction.Commit.{
  merged, merged-written, merged-children, merged-deleted, te-merged,
}
use lixs.Mstore.Transaction.Abort.{aborted, abort_all-at}
use lixs.Mstore.Transaction.Outcome.{merge-at}

aborted-read :
    (c id : ℕ) (r : Record)
    → guarded c (aborted id r).e (aborted id r).e.value ≡ guarded c r.e r.e.value
unfolding aborted
aborted-read c id r = ground arith

-- After an `abort` every client reads outside of transactions, at every path, what it read before.
pub read-abort :
    (id : ℕ) (s : State) (c : ℕ) (j : Text)
    → SimpleAccess.read c j (abort id s).db ≡ SimpleAccess.read c j s.db
unfolding abort
read-abort id s c j =
    rw (read-guarded c j (abort id s).db, read-guarded c j s.db)
      (ground (arith, abort_all-at id s.records j s.db, aborted-read c id (at j s.db)))

-- After a `merge` that fails every client reads outside of transactions, at every path, what it
-- read before.
pub read-failed_merge :
    (id : ℕ) (s : State)
    → (merge id s).0 ≡ false
    → (c : ℕ) (j : Text) → SimpleAccess.read c j (merge id s).1.db ≡ SimpleAccess.read c j s.db
read-failed_merge id s bad c j =
    rw (read-guarded c j (merge id s).1.db, read-guarded c j s.db)
      (ground (arith, (merge-at id s j).2 bad, aborted-read c id (at j s.db)))

module _ (id : ℕ) (s : State) (done : (merge id s).0 ≡ true) (j : Text)
    (mine : Set.has j s.records ≡ true) where
  here-merged : at j (merge id s).1.db ≡ merged id (at j s.db)
  here-merged = ground (arith, (merge-at id s j).1 done)

  -- After a `merge` that succeeds, at a path that the transaction referred to, where its entry is
  -- valid and was written after it was initialised, and where the record's deletion number lies
  -- below its next one: a client reads the value of the transaction's entry if the permissions of
  -- that entry let it, and `eacces` if not.
  pub read-merge_written :
      (te_of id (at j s.db)).delete_seq < (te_of id (at j s.db)).write_seq
      → (te_of id (at j s.db)).init_seq < (te_of id (at j s.db)).write_seq
      → IsFresh (at j s.db)
      → (c : ℕ)
      → SimpleAccess.read c j (merge id s).1.db ≡ (
          if has_read_access c (te_of id (at j s.db)).perms
          then ok (te_of id (at j s.db)).value
          else err eacces)
  read-merge_written on new f c =
      let (v, val, perms) = merged-written id (at j s.db) on new f.delete in
      rw (read-guarded c j (merge id s).1.db, here-merged) (rw (v, val, perms))

  -- After a `merge` that succeeds, at a path that the transaction referred to and that is valid in
  -- the database, where the transaction's entry is not valid: every client reads what it read
  -- before. So a deletion in a transaction does not reach the database.
  pub read-merge_deleted :
      te_valid (te_of id (at j s.db)) ≡ false
      → is_valid j s.db ≡ true
      → (c : ℕ) → SimpleAccess.read c j (merge id s).1.db ≡ SimpleAccess.read c j s.db
  read-merge_deleted off v c =
      let (v', val, perms, kids) = merged-deleted id (at j s.db) off v in
      rw (read-guarded c j (merge id s).1.db, read-guarded c j s.db, here-merged)
        (rw (v', v, val, perms))

  -- After a `merge` that succeeds, at a path that the transaction referred to, where its entry and
  -- the database's entry are valid and the record's numbers lie below its next one: the children
  -- are those of the database, with the names that the transaction added and without those that it
  -- removed.
  pub children-merge :
      te_valid (te_of id (at j s.db)) ≡ true
      → is_valid j s.db ≡ true
      → IsFresh (at j s.db)
      → (c : Text)
      → Set.has c (at j (merge id s).1.db).e.children ≡ (
          if Set.has c (te_of id (at j s.db)).children_rem
          then false
          else if Set.has c (te_of id (at j s.db)).children_add
          then true
          else Set.has c (at j s.db).e.children)
  children-merge on v f c = rw here-merged (merged-children id (at j s.db) c on v f.delete)

  -- The transaction has left the record.
  pub gone-merge : Map.find id (at j (merge id s).1.db).te ≡ none
  gone-merge =
      rw (here-merged, te-merged id (at j s.db))
        (ground (arith, Map.find-erase id id (at j s.db).te))
