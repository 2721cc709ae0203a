-- ===== src/Mstore/Transaction/Abort.antt =====
-- What `abort` leaves at each path.
use lixs.Base.{ℕ, ◌≡◌, ◌&&◌, List, [], ◌∷◌, arith, refl, ite, if◌then◌else◌, ltb}
use lixs.Base.Key.{nat_key}
use lixs.Base.Map
use lixs.Base.Set
use lixs.Base.Text.{Text, text_dec, text_key}
use lixs.Mstore.Database.{Record, Database, at, modify, new_record}
use lixs.Mstore.Database.Laws.{at-modify, at-modify_self, at-erase}
use lixs.Mstore.Transaction.Merge.{drop_te, abort_record, abort_all}

-- A record that is marked as deleted, and that no transaction refers to, goes.
abbrev clean : Record → Record
clean r = if ltb r.e.write_seq r.e.delete_seq && Map.is_empty r.te then new_record else r

unfoldable pub aborted : ℕ → Record → Record
aborted id r = clean (drop_te id r)

aborted_idem : (id : ℕ) (r : Record) → aborted id (aborted id r) ≡ aborted id r
unfolding aborted
aborted_idem id r = ground (arith, Map.erase-erase id r.te, Map.erase-nil id)

abort_record-at :
    (id : ℕ) (path j : Text) (db : Database)
    → at j (abort_record id path db) ≡ ite (text_dec path j) (aborted id (at path db)) (at j db)
unfolding abort_record aborted
abort_record-at id path j db = ground (
  arith,
  at-modify path j (drop_te id) db,
  at-modify_self path (drop_te id) db,
  at-erase path j (modify path (drop_te id) db),
)

pub abort_all-at :
    (id : ℕ) (paths : List Text) (j : Text) (db : Database)
    → at j (abort_all id paths db) ≡ (if Set.has j paths then aborted id (at j db) else at j db)
unfolding abort_all Set.has
abort_all-at id [] j db = refl
abort_all-at id (path ∷ paths) j db = elim (text_dec path j) [
  | yes e ↦ ground (
    arith,
    abort_all-at id paths j (abort_record id path db),
    abort_record-at id path j db,
    aborted_idem id (at j db),
  )
  | no ne ↦
      ground
        (arith, abort_all-at id paths j (abort_record id path db), abort_record-at id path j db)
]
