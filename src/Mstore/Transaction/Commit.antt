-- ===== src/Mstore/Transaction/Commit.antt =====
-- What `do_merge` leaves at each path.
use mathlib.Core.Path.{ap}
use lixs.Base.{
  ℕ, ◌≤◌, ◌<◌, ◌≡◌, ◌∙◌, true, false, ◌&&◌, List, [], ◌∷◌, arith, refl, ite, if◌then◌else◌,
}
use lixs.Base.Key.{nat_key}
use lixs.Base.Map
use lixs.Base.Set
use lixs.Base.Set.{Set}
use lixs.Base.Text.{Text, text_dec, text_key}
use lixs.Mstore.Database.{
  TEntryMap, TEntry, Record, Database, at, modify, valid, new_record, new_tentry,
}
use lixs.Mstore.Database.Laws.{at-modify, at-modify_self, at-erase}
use lixs.Mstore.Transaction.{te_of, te_valid}
use lixs.Mstore.Transaction.Merge.{drop_te, merge_entry, reset_seqs, merge_record, do_merge}

-- The end of `do_merge` for a record: sequence numbers start again, or the record goes.
abbrev pub settle : Record → Record
settle r = if Map.is_empty r.te then (if valid r.e then reset_seqs r else new_record) else r

-- What a merge makes of the record at a path.
unfoldable pub merged : ℕ → Record → Record
merged id r = settle (drop_te id (merge_entry id r))

pub left_te : (id : ℕ) (r : Record) → Map.erase id (merge_entry id r).te ≡ Map.erase id r.te
unfolding merge_entry
left_te id r =
    ground (arith, Map.erase-put id (record (te_of id r) { delete_seq = r.next_seq }) r.te)

is_empty-nil : (m : TEntryMap) → Map.is_empty m ≡ true → m ≡ []
is_empty-nil [] e = refl
is_empty-nil (x ∷ m) e = cc

pub te-merged : (id : ℕ) (r : Record) → (merged id r).te ≡ Map.erase id r.te
unfolding merged
te-merged id r = ground (arith, left_te id r, is_empty-nil (Map.erase id r.te))

te_of-merged : (id : ℕ) (r : Record) → te_of id (merged id r) ≡ new_tentry
te_of-merged id r = ground (arith, te-merged id r, Map.find-erase id id r.te)

merge_entry-merged : (id : ℕ) (r : Record) → merge_entry id (merged id r) ≡ merged id r
unfolding merge_entry
merge_entry-merged id r = rw (te_of-merged id r) refl

settle_idem : (r : Record) → settle (settle r) ≡ settle r
settle_idem r = ground arith

drop-merged : (id : ℕ) (r : Record) → drop_te id (merged id r) ≡ merged id r
drop-merged id r = ground (arith, te-merged id r, Map.erase-erase id r.te)

pub merged_lem : (id : ℕ) (r : Record) → merged id r ≡ settle (drop_te id (merge_entry id r))
unfolding merged
merged_lem id r = refl

settle-merged : (id : ℕ) (r : Record) → settle (merged id r) ≡ merged id r
unfolding merged
settle-merged id r = settle_idem (drop_te id (merge_entry id r))

merged_idem : (id : ℕ) (r : Record) → merged id (merged id r) ≡ merged id r
merged_idem id r =
    merged_lem id (merged id r)
    ∙ ap (λ q. settle (drop_te id q)) (merge_entry-merged id r)
    ∙ ap settle (drop-merged id r)
    ∙ settle-merged id r

merge_record-at :
    (id : ℕ) (path j : Text) (db : Database)
    → at j (merge_record id path db) ≡ ite (text_dec path j) (merged id (at path db)) (at j db)
unfolding merge_record merged
merge_record-at id path j db = ground (
  arith,
  at-modify path j (λ r. drop_te id (merge_entry id r)) db,
  at-modify_self path (λ r. drop_te id (merge_entry id r)) db,
  at-modify path j reset_seqs (modify path (λ r. drop_te id (merge_entry id r)) db),
  at-erase path j (modify path (λ r. drop_te id (merge_entry id r)) db),
)

pub do_merge-at :
    (id : ℕ) (paths : List Text) (j : Text) (db : Database)
    → at j (do_merge id paths db) ≡ (if Set.has j paths then merged id (at j db) else at j db)
unfolding do_merge Set.has
do_merge-at id [] j db = refl
do_merge-at id (path ∷ paths) j db = elim (text_dec path j) [
  | yes e ↦ ground (
    arith,
    do_merge-at id paths j (merge_record id path db),
    merge_record-at id path j db,
    merged_idem id (at j db),
  )
  | no ne ↦
      ground (arith, do_merge-at id paths j (merge_record id path db), merge_record-at id path j db)
]

-- The transaction wrote the path: the value and the permissions are its own.
pub merged-written :
    (id : ℕ) (r : Record)
    → (te_of id r).delete_seq < (te_of id r).write_seq
    → (te_of id r).init_seq < (te_of id r).write_seq
    → r.e.delete_seq < r.next_seq
    → (valid (merged id r).e ≡ true)
      × ((merged id r).e.value ≡ (te_of id r).value)
      × ((merged id r).e.perms ≡ (te_of id r).perms)
unfolding merged merge_entry
merged-written id r on new fresh = ground arith

-- The transaction did not write it: value, permissions and validity are as before.
pub merged-read :
    (id : ℕ) (r : Record)
    → te_valid (te_of id r) ≡ true
    → (te_of id r).write_seq ≤ (te_of id r).init_seq
    → valid r.e ≡ true
    → (valid (merged id r).e ≡ true)
      × ((merged id r).e.value ≡ r.e.value)
      × ((merged id r).e.perms ≡ r.e.perms)
unfolding merged merge_entry
merged-read id r on old v = ground arith

abbrev changed : TEntry → Set Text → Set Text
changed te cs = Set.erase_all te.children_rem (Set.insert_all te.children_add cs)

changed_or_same :
    (add rem cs : Set Text)
    → (if Set.is_empty add && Set.is_empty rem
        then cs
        else Set.erase_all rem (Set.insert_all add cs))
      ≡ Set.erase_all rem (Set.insert_all add cs)
unfolding Set.erase_all Set.insert_all
changed_or_same [] [] cs = refl
changed_or_same [] (x ∷ rem) cs = refl
changed_or_same (x ∷ add) rem cs = refl

merged-changed :
    (id : ℕ) (r : Record)
    → te_valid (te_of id r) ≡ true
    → valid r.e ≡ true
    → r.e.delete_seq < r.next_seq
    → (merged id r).e.children ≡ changed (te_of id r) r.e.children
unfolding merged merge_entry
merged-changed id r on v fresh =
    let te = te_of id r in
    ground (arith, changed_or_same te.children_add te.children_rem r.e.children)

-- The list of children takes the transaction's additions and loses its removals.
pub merged-children :
    (id : ℕ) (r : Record) (c : Text)
    → te_valid (te_of id r) ≡ true
    → valid r.e ≡ true
    → r.e.delete_seq < r.next_seq
    → Set.has c (merged id r).e.children ≡ (
        if Set.has c (te_of id r).children_rem
        then false
        else if Set.has c (te_of id r).children_add
        then true
        else Set.has c r.e.children)
merged-children id r c on v fresh =
    let te = te_of id r in
    rw (merged-changed id r on v fresh) (
      ground (
        arith,
        Set.has-erase_all te.children_rem c (Set.insert_all te.children_add r.e.children),
        Set.has-insert_all te.children_add c r.e.children,
      ))

-- The transaction deleted the path: the entry stays valid.
pub merged-deleted :
    (id : ℕ) (r : Record)
    → te_valid (te_of id r) ≡ false
    → valid r.e ≡ true
    → (valid (merged id r).e ≡ true)
      × ((merged id r).e.value ≡ r.e.value)
      × ((merged id r).e.perms ≡ r.e.perms)
      × ((merged id r).e.children ≡ r.e.children)
unfolding merged merge_entry
merged-deleted id r off v = ground arith
