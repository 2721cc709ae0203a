-- ===== src/Mstore/Transaction/Merge.antt =====
-- The end of a transaction: `abort`, `can_merge`, `do_merge` and `merge` of
-- lib/lixs/mstore/transaction.cc.
use lixs.Base.{ℕ, ◌+◌, Bool, true, false, ◌&&◌, ◌||◌, not, List, [], ◌∷◌, ltb, ◌==◌, if◌then◌else◌}
use lixs.Base.Key.{nat_key}
use lixs.Base.Map
use lixs.Base.Set
use lixs.Base.Text.{Text, text_key}
use lixs.Mstore.Database.{Entry, TEntry, Record, Database, valid, at, modify}
use lixs.Mstore.Transaction.{State, te_of, te_valid, store_te, bump}

-- `rec.te.erase(id)`
abbrev pub drop_te : ℕ → Record → Record
drop_te id r = record r { te = Map.erase id r.te }

unfoldable pub abort_record : ℕ → Text → Database → Database
abort_record id path db =
    let dropped = modify path (drop_te id) db in
    let r = at path dropped in
    if ltb r.e.write_seq r.e.delete_seq && Map.is_empty r.te
    then Map.erase path dropped
    else dropped

unfoldable pub abort_all : ℕ → List Text → Database → Database
abort_all id [] db = db
abort_all id (path ∷ paths) db = abort_all id paths (abort_record id path db)

unfoldable pub abort : ℕ → State → State
abort id s = record { db = abort_all id s.records s.db; records = [] }

-- 1. The entry was deleted, or created, since the transaction first referred to it.
abbrev pub changed_validity : TEntry → Entry → Bool
changed_validity te e =
    if te.init_valid then ltb te.init_seq e.delete_seq else ltb te.init_seq e.write_seq

-- 2. It was written since the transaction first read it.
abbrev pub stale_data : TEntry → Entry → Bool
stale_data te e = not (te.read_seq == 0) && ltb te.read_seq e.write_seq

-- 3. Its children changed since the transaction first read them.
abbrev pub stale_children : TEntry → Entry → Bool
stale_children te e =
    not (te.read_children_seq == 0) && ltb te.read_children_seq e.write_children_seq

unfoldable pub conflicts : TEntry → Entry → Bool
conflicts te e = changed_validity te e || (stale_data te e || stale_children te e)

-- `record& rec = db[r]; tentry& te = rec.te[id]`
abbrev pub touch_te : ℕ → Text → Database → Database
touch_te id path db = modify path (λ r. store_te id (te_of id r) r) db

unfoldable pub can_merge : ℕ → List Text → Database → Bool × Database
can_merge id [] db = (true, db)
can_merge id (path ∷ paths) db =
    let here = touch_te id path db in
    let rest = can_merge id paths here in
    if conflicts (te_of id (at path here)) (at path here).e then (false, here) else rest

-- The value and the permissions, if the transaction wrote them.
abbrev pub merge_data : TEntry → Record → Record
merge_data te r =
    if ltb te.init_seq te.write_seq
    then record r {
      e = record r.e { value = te.value; perms = te.perms; write_seq = r.next_seq };
      next_seq = r.next_seq + 1;
    }
    else r

-- The changes of the list of children, if there are any.
abbrev pub merge_children : TEntry → Record → Record
merge_children te r =
    if Set.is_empty te.children_add && Set.is_empty te.children_rem then r else record r {
      e = record r.e {
        children = Set.erase_all te.children_rem (Set.insert_all te.children_add r.e.children);
        write_children_seq = r.next_seq;
      };
      next_seq = r.next_seq + 1;
    }

-- `te.delete_seq = rec.next_seq++`, on the transaction's entry as in the source.
abbrev pub merge_deleted : ℕ → TEntry → Record → Record
merge_deleted id te r =
    if ltb te.init_seq te.delete_seq
    then bump (store_te id (record te { delete_seq = r.next_seq }) r)
    else r

unfoldable pub merge_entry : ℕ → Record → Record
merge_entry id r =
    let te = te_of id r in
    if te_valid te then merge_children te (merge_data te r) else merge_deleted id te r

abbrev pub reset_seqs : Record → Record
reset_seqs r = record r {
  e = record r.e { write_seq = 1; delete_seq = 0; write_children_seq = 0 };
  next_seq = 2;
}

unfoldable pub merge_record : ℕ → Text → Database → Database
merge_record id path db =
    let merged = modify path (λ r. drop_te id (merge_entry id r)) db in
    if Map.is_empty (at path merged).te
    then (if valid (at path merged).e then modify path reset_seqs merged else Map.erase path merged)
    else merged

unfoldable pub do_merge : ℕ → List Text → Database → Database
do_merge id [] db = db
do_merge id (path ∷ paths) db = do_merge id paths (merge_record id path db)

unfoldable pub merge : ℕ → State → Bool × State
merge id s =
    let (success, db) = can_merge id s.records s.db in
    if success
    then (true, record { db = do_merge id s.records db; records = [] })
    else (false, abort id (record s { db = db }))
