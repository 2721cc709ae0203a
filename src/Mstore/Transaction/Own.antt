-- ===== src/Mstore/Transaction/Own.antt =====
-- What a transaction reads after its own writes.
use lixs.Base.{
  ℕ, ◌+◌, ◌<◌, ◌≡◌, ◌∙◌, true, false, some, arith, refl, inl, inr, Bool-cases, Option-cases, ◌==◌,
}
use lixs.Base.Key.{nat_key}
use lixs.Base.Map
use lixs.Base.Text.{Text}
use lixs.Errno.{ok}
use lixs.Permissions.{PermissionList, has_read_access, has_write_access}
use lixs.Mstore.Database.{TEntryMap, TEntry, Record, at, touch}
use lixs.Mstore.Database.Laws.{at-modify_self, at-touch}
use lixs.Mstore.Transaction.Hidden.{edit_bump-at}
use lixs.Mstore.Transaction.{
  State, te_of, te_valid, store_te, bump, init_te, edit, edit_bump, get_tentry, tentry, read_data,
  fetch_tentry_data, put_perms, put_value, mark_written, read, update, get_perms, set_perms,
}

-- The deletion numbers at a path lie below the next number of its record.
pub record IsCurrent (id : ℕ) (r : Record) : Type 0 where
  pub entry : r.e.delete_seq < r.next_seq
  pub own : (te_of id r).delete_seq < r.next_seq

-- The transaction has an entry in the record.
record IsEntered (id : ℕ) (r : Record) : Type 0 where
  there : Map.find id r.te ≡ some (te_of id r)
  own : (te_of id r).delete_seq < r.next_seq

find-put_self : (id : ℕ) (te : TEntry) (m : TEntryMap) → Map.find id (Map.put id te m) ≡ some te
find-put_self id te m = ground (arith, Map.find-put id id te m)

module _ (id : ℕ) (path : Text) (f : Record → TEntry → TEntry) (s : State) where
  edit_self :
      at path (edit id path f s).db
      ≡ store_te id (f (at path s.db) (te_of id (at path s.db))) (at path s.db)
  unfolding edit
  edit_self = at-modify_self path _ s.db

  edit_bump_self :
      at path (edit_bump id path f s).db
      ≡ bump (store_te id (f (at path s.db) (te_of id (at path s.db))) (at path s.db))
  unfolding edit_bump
  edit_bump_self = at-modify_self path _ s.db

module _ (id : ℕ) (path : Text) (s : State) where
  enter-IsEntered : IsCurrent id (at path s.db) → IsEntered id (at path (get_tentry id path s).db)
  unfolding get_tentry
  enter-IsEntered c = elim (Option-cases (Map.find id (at path s.db).te)) [
    | inl e ↦
        rw (e, get_tentry)
          (rw at-modify_self (record {
            there = ground (arith, Map.find-put id id (init_te (at path s.db)) (at path s.db).te);
            own =
                ground
                  (arith, c.entry, Map.find-put id id (init_te (at path s.db)) (at path s.db).te);
          }))
    | inr (te, e) ↦ rw (e, get_tentry) (rw at-touch (record { there = ground arith; own = c.own }))
  ]

  fetch-IsEntered :
      IsEntered id (at path s.db)
      → IsEntered id (at path (fetch_tentry_data id path s).db)
        × (((tentry id path (fetch_tentry_data id path s)).read_seq == 0) ≡ false)
        × (te_valid (tentry id path (fetch_tentry_data id path s)) ≡ te_valid (tentry id path s))
  unfolding fetch_tentry_data
  fetch-IsEntered c =
      let r = at path s.db in
      let put = Map.find-put id id (read_data r (te_of id r)) r.te in
      elim (Bool-cases ((tentry id path s).read_seq == 0)) [
        | inl e ↦
            rw (e, fetch_tentry_data)
              (
                record {
                  there = ground (arith, edit_bump-at id path read_data s path, put);
                  own = ground (arith, edit_bump-at id path read_data s path, put, c.own);
                },
                ground (arith, edit_bump-at id path read_data s path, put, c.own),
                ground (arith, edit_bump-at id path read_data s path, put),
              )
        | inr e ↦ rw (e, fetch_tentry_data) (c, e, refl)
      ]

  get-entered :
      IsEntered id (at path s.db) → get_tentry id path s ≡ record s { db = touch path s.db }
  unfolding get_tentry
  get-entered c = rw (c.there, get_tentry)

  fetch-done : ((tentry id path s).read_seq == 0) ≡ false → fetch_tentry_data id path s ≡ s
  unfolding fetch_tentry_data
  fetch-done done = rw (done, fetch_tentry_data)

module _ (id : ℕ) (path : Text) (s : State) where
  -- An entry that is there, valid and fetched is read as it is.
  read-entered :
      IsEntered id (at path s.db)
      → te_valid (tentry id path s) ≡ true
      → ((tentry id path s).read_seq == 0) ≡ false
      → ((read id 0 path s).0 ≡ ok (tentry id path s).value)
        × ((get_perms id 0 path s).0 ≡ ok (tentry id path s).perms)
  unfolding read get_perms has_read_access
  read-entered c on done =
      let touched : State = record s { db = touch path s.db } in
      let same : tentry id path touched ≡ tentry id path s = rw at-touch refl in
      let fetched : fetch_tentry_data id path touched ≡ touched =
        fetch-done id path touched (rw same done) in
      (
        rw (get-entered id path s c, fetched) (rw same (rw on)),
        rw (get-entered id path s c, fetched) (rw same (rw on)),
      )

-- The end of a write: the value or the permissions are put, and the entry is marked as written.
abbrev written : ℕ → Text → (Record → TEntry → TEntry) → State → State
written id path f s = edit_bump id path mark_written (edit id path f s)

written-at :
    (id : ℕ) (path : Text) (f : Record → TEntry → TEntry) (s : State)
    → (tentry id path (written id path f s)
        ≡ record (f (at path s.db) (tentry id path s)) { write_seq = (at path s.db).next_seq })
      × (Map.find id (at path (written id path f s).db).te
          ≡ some (tentry id path (written id path f s)))
      × ((at path (written id path f s).db).next_seq ≡ (at path s.db).next_seq + 1)
written-at id path f s =
    rw (edit_bump_self id path mark_written (edit id path f s), edit_self id path f s)
      (rw find-put_self (rw find-put_self (refl, refl, refl)))

-- After a write, the path is read as written.
written-read :
    (id : ℕ) (path : Text) (f : Record → TEntry → TEntry) (s : State)
    → IsEntered id (at path s.db)
    → ((tentry id path s).read_seq == 0) ≡ false
    → (f (at path s.db) (tentry id path s)).delete_seq ≡ (tentry id path s).delete_seq
    → (f (at path s.db) (tentry id path s)).read_seq ≡ (tentry id path s).read_seq
    → ((read id 0 path (written id path f s)).0 ≡ ok (f (at path s.db) (tentry id path s)).value)
      × ((get_perms id 0 path (written id path f s)).0
          ≡ ok (f (at path s.db) (tentry id path s)).perms)
written-read id path f s c done del read_seq =
    let (te, there, next) = written-at id path f s in
    let (value, perms) =
      read-entered id path (written id path f s)
        (record { there = there; own = rw te (omega (arith, c.own, del, next)) })
        (rw te (ground (arith, c.own, del))) (rw te (rw read_seq done)) in
    (value ∙ rw te refl, perms ∙ rw te refl)

-- After a `set_perms` in a transaction that returned 0, domain 0 gets the new permissions in that
-- transaction, where the deletion numbers at the path lie below the next number of its record.
pub get_perms-set_perms_inside :
    (id cid : ℕ) (path : Text) (perms : PermissionList) (s : State)
    → IsCurrent id (at path s.db)
    → (set_perms id cid path perms s).0 ≡ ok tt
    → (get_perms id 0 path (set_perms id cid path perms s).1).0 ≡ ok perms
unfolding set_perms
get_perms-set_perms_inside id cid path perms s current done =
    let here = get_tentry id path s in
    let (c, fetched, same) = fetch-IsEntered id path here (enter-IsEntered id path s current) in
    elim (Bool-cases (te_valid (tentry id path here))) [
      | inr off ↦ absurd (ground arith)
      | inl on ↦
          elim (Bool-cases
            (has_write_access cid (tentry id path (fetch_tentry_data id path here)).perms)) [
              | inr denied ↦ absurd (ground arith)
              | inl may ↦
                  rw (on, may)
                    (written-read id path (put_perms perms) (fetch_tentry_data id path here) c
                      fetched refl refl).1
            ]
    ]

-- After an `update` in a transaction that returned 0, of a path that was valid there, domain 0
-- reads the new value in that transaction, where the deletion numbers at the path lie below the
-- next number of its record.
pub read-update_inside :
    (id cid : ℕ) (path val : Text) (s : State)
    → IsCurrent id (at path s.db)
    → te_valid (tentry id path (get_tentry id path s)) ≡ true
    → (update id cid path val s).0 ≡ ok tt
    → (read id 0 path (update id cid path val s).1).0 ≡ ok val
unfolding update
read-update_inside id cid path val s current on done =
    let here = get_tentry id path s in
    let (c, fetched, same) = fetch-IsEntered id path here (enter-IsEntered id path s current) in
    elim (Bool-cases
      (has_write_access cid (tentry id path (fetch_tentry_data id path here)).perms)) [
        | inr denied ↦ absurd (ground arith)
        | inl may ↦
            rw (on, may)
              (written-read id path (put_value val) (fetch_tentry_data id path here) c fetched refl
                refl).0
      ]
