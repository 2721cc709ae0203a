-- ===== src/Mstore/Transaction/Conflict.antt =====
-- When `can_merge` lets a transaction through.
use lixs.Base.{
  ℕ, ◌≤◌, ◌≡◌, ◌≢◌, ◌∙◌, ◌↔◌, true, false, List, [], ◌∷◌, arith, refl, inl, inr, Bool-cases,
}
use lixs.Base.Key.{nat_key}
use lixs.Base.Map
use lixs.Base.Set
use lixs.Base.Text.{Text, text_key}
use lixs.Mstore.Database.{TEntry, Entry, Record, Database, at}
use lixs.Mstore.Database.Laws.{at-modify}
use lixs.Mstore.Transaction.{te_of, store_te}
use lixs.Mstore.Transaction.Merge.{conflicts, touch_te, can_merge}

-- Nothing that the transaction relied on at a path has changed outside of it.
pub record Consistent (te : TEntry) (e : Entry) : Type 0 where
  pub still_there : te.init_valid ≡ true → e.delete_seq ≤ te.init_seq
  pub still_absent : te.init_valid ≡ false → e.write_seq ≤ te.init_seq
  pub same_data : te.read_seq ≢ 0 → e.write_seq ≤ te.read_seq
  pub same_children : te.read_children_seq ≢ 0 → e.write_children_seq ≤ te.read_children_seq

Consistent-of_merge : (te : TEntry) (e : Entry) → conflicts te e ≡ false → Consistent te e
unfolding conflicts
Consistent-of_merge te e h = record {
  still_there = λ v. ground arith;
  still_absent = λ v. ground arith;
  same_data = λ r. ground arith;
  same_children = λ r. ground arith;
}

merge_of_Consistent : (te : TEntry) (e : Entry) → Consistent te e → conflicts te e ≡ false
unfolding conflicts
merge_of_Consistent te e c = elim (Bool-cases te.init_valid) [
  | inl v ↦ ground (arith, c.still_there v, c.same_data, c.same_children)
  | inr v ↦ ground (arith, c.still_absent v, c.same_data, c.same_children)
]

touch_te-at :
    (id : ℕ) (path j : Text) (db : Database)
    → ((at j (touch_te id path db)).e ≡ (at j db).e)
      × (te_of id (at j (touch_te id path db)) ≡ te_of id (at j db))
touch_te-at id path j db = ground (
  arith,
  at-modify path j (λ r. store_te id (te_of id r) r) db,
  Map.find-put id id (te_of id (at path db)) (at path db).te,
)

abbrev Clear : ℕ → Text → Database → Type 0
Clear id j db = conflicts (te_of id (at j db)) (at j db).e ≡ false

can_merge-Clear :
    (id : ℕ) (paths : List Text) (db : Database)
    → (can_merge id paths db).0 ≡ true
    → (j : Text) → Set.has j paths ≡ true
    → Clear id j db
unfolding can_merge Set.has
can_merge-Clear id [] db ok j h = cc
can_merge-Clear id (path ∷ paths) db ok j h = ground (
  arith,
  touch_te-at id path path db,
  touch_te-at id path j db,
  can_merge-Clear id paths (touch_te id path db) (ground arith) j,
)

Clear-can_merge :
    (id : ℕ) (paths : List Text) (db : Database)
    → ((j : Text) → Set.has j paths ≡ true → Clear id j db)
    → (can_merge id paths db).0 ≡ true
unfolding can_merge
Clear-can_merge id [] db clear = refl
Clear-can_merge id (path ∷ paths) db clear =
    let rest = Clear-can_merge id paths (touch_te id path db) (λ j h.
      rw ((touch_te-at id path j db).0, (touch_te-at id path j db).1)
        (clear j (unfold Set.has in ground arith))) in
    ground (arith, touch_te-at id path path db, clear path (Set.has-head path paths), rest)

-- `can_merge` lets a transaction through exactly when, at each path that it is given, no sequence
-- number of the entry contradicts what the transaction relied on: an entry that was there has not
-- been deleted since, one that was not there has not been written since, and data and children
-- that it read have not been written since it read them.
pub can_merge_iff :
    (id : ℕ) (paths : List Text) (db : Database)
    → ((can_merge id paths db).0 ≡ true)
      ↔ ((j : Text) → Set.has j paths ≡ true → Consistent (te_of id (at j db)) (at j db).e)
can_merge_iff id paths db = (
  λ ok j h.
      Consistent-of_merge (te_of id (at j db)) (at j db).e (can_merge-Clear id paths db ok j h),
  λ all. Clear-can_merge id paths db (λ j h. merge_of_Consistent _ _ (all j h)),
)

-- The checks may store a blank entry of the transaction, and change nothing else of a record.
pub record Checked (id : ℕ) (r q : Record) : Type 0 where
  pub entry : q.e ≡ r.e
  pub next : q.next_seq ≡ r.next_seq
  pub own : te_of id q ≡ te_of id r
  pub others : Map.erase id q.te ≡ Map.erase id r.te

touch_te-Checked :
    (id : ℕ) (path j : Text) (db : Database) → Checked id (at j db) (at j (touch_te id path db))
touch_te-Checked id path j db =
    let te = te_of id (at path db) in
    record {
      entry = (touch_te-at id path j db).0;
      next = ground (arith, at-modify path j (λ r. store_te id (te_of id r) r) db);
      own = (touch_te-at id path j db).1;
      others = ground (
        arith,
        at-modify path j (λ r. store_te id (te_of id r) r) db,
        Map.erase-put id te (at path db).te,
      );
    }

Checked-trans : {id : ℕ} {a b c : Record} → Checked id a b → Checked id b c → Checked id a c
Checked-trans p q = record {
  entry = q.entry ∙ p.entry;
  next = q.next ∙ p.next;
  own = q.own ∙ p.own;
  others = q.others ∙ p.others;
}

pub can_merge-Checked :
    (id : ℕ) (paths : List Text) (j : Text) (db : Database)
    → Checked id (at j db) (at j (can_merge id paths db).1)
unfolding can_merge
can_merge-Checked id [] j db = record { entry = refl; next = refl; own = refl; others = refl }
can_merge-Checked id (path ∷ paths) j db =
    elim (Bool-cases
      (conflicts (te_of id (at path (touch_te id path db))) (at path (touch_te id path db)).e)) [
        | inl bad ↦ rw bad (touch_te-Checked id path j db)
        | inr fine ↦ rw fine (
            Checked-trans (touch_te-Checked id path j db)
              (can_merge-Checked id paths j (touch_te id path db)))
      ]

pub can_merge-elsewhere :
    (id : ℕ) (paths : List Text) (j : Text) (db : Database)
    → Set.has j paths ≡ false
    → at j (can_merge id paths db).1 ≡ at j db
unfolding can_merge Set.has
can_merge-elsewhere id [] j db off = refl
can_merge-elsewhere id (path ∷ paths) j db off = ground (
  arith,
  at-modify path j (λ r. store_te id (te_of id r) r) db,
  can_merge-elsewhere id paths j (touch_te id path db),
)
