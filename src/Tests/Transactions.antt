-- ===== src/Tests/Transactions.antt =====
-- Transactions, on a database with one entry, which the transaction 1 has written.
use lixs.Base.{ℕ, ◌<◌, ◌≡◌, ◌↔◌, true, false, some, List, [], ◌∷◌, refl, if◌then◌else◌, arith}
use lixs.Base.Key.{nat_key}
use lixs.Base.Map
use lixs.Base.Set
use lixs.Base.Text.{Text, codes, text_dec, text_key}
use lixs.Errno.{ok, err, eacces}
use lixs.Permissions.{has_read_access, has_write_access, root_perms}
use lixs.Mstore.Database.{modify, touch, Record, new_entry, new_tentry, at, modify, is_valid}
use lixs.Mstore.Database.Sound.{IsFresh}
use lixs.Mstore.SimpleAccess
use lixs.Mstore.Transaction.{
  State, te_of, te_valid, tentry, get_tentry, fetch_tentry_data, edit, edit_bump, read, update,
  set_perms,
}
use lixs.Mstore.Transaction.Abort.{aborted}
use lixs.Mstore.Transaction.Commit.{merged}
use lixs.Mstore.Transaction.Conflict.{Consistent, can_merge_iff}
use lixs.Mstore.Transaction.Effects.{
  read-failed_merge, read-merge_written, read-merge_deleted, children-merge,
}
use lixs.Mstore.Transaction.Hidden.{Hidden}
use lixs.Mstore.Transaction.Merge.{can_merge, conflicts, merge}
use lixs.Mstore.Transaction.Own.{IsCurrent, read-update_inside}
use lixs.Mstore.Transaction.Outcome.{merge_atomic}
use lixs.Mstore.Transaction.Run.{Call, reads, updates, dels, run, run-Hidden}

abbrev node : Text
node = codes "/a"

abbrev kid : Text
kid = codes "b"

abbrev record_with : ℕ → Record
record_with write_seq = record {
  e = record new_entry { write_seq = write_seq; children = kid ∷ [] };
  te =
      (
        1,
        record new_tentry {
          value = codes "x";
          children_add = codes "c" ∷ [];
          children_rem = kid ∷ [];
          init_seq = 2;
          init_valid = false;
          write_seq = 4;
        },
      )
      ∷ [];
  next_seq = 5;
}

abbrev written : State
written = record { db = (node, record_with 1) ∷ []; records = node ∷ [] }

-- The same where the entry has been written meanwhile.
abbrev overtaken : State
overtaken = record { db = (node, record_with 3) ∷ []; records = node ∷ [] }

abbrev deleted : State
deleted = record {
  db =
      (
        node,
        record {
          e = record new_entry { write_seq = 1 };
          te =
              (
                1,
                record new_tentry {
                  init_seq = 2;
                  init_valid = true;
                  write_seq = 1;
                  delete_seq = 4;
                },
              )
              ∷ [];
          next_seq = 5;
        },
      )
      ∷ [];
  records = node ∷ [];
}

abbrev calls : List Call
calls = reads 0 node ∷ updates 0 (codes "/a/b/c") kid ∷ dels 0 node ∷ []

run-Hidden_example : (t : State) × (run 2 calls written ≡ some t) × Hidden 2 written t
run-Hidden_example = run-Hidden 2 calls written

merge_atomic_example :
    ((merge 1 written).1.records ≡ [])
    × (at node (merge 1 written).1.db ≡ (
        if Set.has node written.records
        then (if (merge 1 written).0
            then merged 1 (at node written.db)
            else aborted 1 (at node written.db))
        else at node written.db))
merge_atomic_example = merge_atomic 1 written node

can_merge_iff_example : ((can_merge 1 (node ∷ []) written.db).0 ≡ true) ↔ (
    (j : Text)
    → Set.has j (node ∷ []) ≡ true
    → Consistent (te_of 1 (at j written.db)) (at j written.db).e)
can_merge_iff_example = can_merge_iff 1 (node ∷ []) written.db

merge-written : (merge 1 written).0 ≡ true
unfolding merge can_merge conflicts modify at Map.find Map.put text_dec
merge-written = refl

merge-overtaken : (merge 1 overtaken).0 ≡ false
unfolding merge can_merge conflicts modify at Map.find Map.put text_dec
merge-overtaken = refl

merge-deleted : (merge 1 deleted).0 ≡ true
unfolding merge can_merge conflicts modify at Map.find Map.put text_dec
merge-deleted = refl

mine : Set.has node (node ∷ []) ≡ true
unfolding Set.has text_dec
mine = refl

written-IsFresh : IsFresh (at node written.db)
unfolding at Map.find text_dec
written-IsFresh = record { write = omega arith; delete = omega arith; children = omega arith }

on : (te_of 1 (at node written.db)).delete_seq < (te_of 1 (at node written.db)).write_seq
unfolding at Map.find text_dec
on = omega arith

new : (te_of 1 (at node written.db)).init_seq < (te_of 1 (at node written.db)).write_seq
unfolding at Map.find text_dec
new = omega arith

read-merge_written_example : SimpleAccess.read 7 node (merge 1 written).1.db ≡ (
    if has_read_access 7 (te_of 1 (at node written.db)).perms
    then ok (te_of 1 (at node written.db)).value
    else err eacces)
read-merge_written_example =
    read-merge_written 1 written merge-written node mine on new written-IsFresh 7

read-failed_merge_example :
    SimpleAccess.read 7 node (merge 1 overtaken).1.db ≡ SimpleAccess.read 7 node overtaken.db
read-failed_merge_example = read-failed_merge 1 overtaken merge-overtaken 7 node

deleted-off : te_valid (te_of 1 (at node deleted.db)) ≡ false
unfolding at Map.find text_dec
deleted-off = refl

deleted-valid : is_valid node deleted.db ≡ true
unfolding at Map.find text_dec
deleted-valid = refl

read-merge_deleted_example :
    SimpleAccess.read 7 node (merge 1 deleted).1.db ≡ SimpleAccess.read 7 node deleted.db
read-merge_deleted_example =
    read-merge_deleted 1 deleted merge-deleted node mine deleted-off deleted-valid 7

written-on : te_valid (te_of 1 (at node written.db)) ≡ true
unfolding at Map.find text_dec
written-on = refl

written-valid : is_valid node written.db ≡ true
unfolding at Map.find text_dec
written-valid = refl

children-merge_example : Set.has kid (at node (merge 1 written).1.db).e.children ≡ (
    if Set.has kid (te_of 1 (at node written.db)).children_rem
    then false
    else if Set.has kid (te_of 1 (at node written.db)).children_add
    then true
    else Set.has kid (at node written.db).e.children)
children-merge_example =
    children-merge 1 written merge-written node mine written-on written-valid written-IsFresh kid

written-IsCurrent : IsCurrent 1 (at node written.db)
unfolding at Map.find text_dec
written-IsCurrent = record { entry = omega arith; own = omega arith }

own-valid : te_valid (tentry 1 node (get_tentry 1 node written)) ≡ true
unfolding get_tentry touch modify at Map.find Map.put text_dec
own-valid = refl

own-updated : (update 1 0 node kid written).0 ≡ ok tt
unfolding update get_tentry fetch_tentry_data edit_bump edit touch modify at Map.find Map.put
    text_dec has_write_access
own-updated = refl

read-update_inside_example : (read 1 0 node (update 1 0 node kid written).1).0 ≡ ok kid
read-update_inside_example =
    read-update_inside 1 0 node kid written written-IsCurrent own-valid own-updated

own-set_perms : (set_perms 1 0 node root_perms written).0 ≡ ok tt
unfolding set_perms get_tentry fetch_tentry_data edit_bump edit touch modify at Map.find Map.put
    text_dec has_write_access
own-set_perms = refl
