-- ===== src/Mstore/Transaction/Total.antt =====
-- A deletion inside of a transaction ends on every database: each call goes to a longer path, and
-- no path longer than those of the database is visible.
use mathlib.Core.Logic.{if_neg}
use lixs.Base.{
  ℕ, zero, suc, ◌+◌, ◌≤◌, ◌<◌, ◌≡◌, ◌≢◌, Bool, false, Option, none, some, List, [], ◌∷◌, arith,
  refl, inl, inr, Bool-cases, Option-cases, ltb, ◌∙◌, ap, ◌==◌,
}
use lixs.Base.Key.{nat_key}
use lixs.Base.Map
use lixs.Base.Text.{Text, length, text_dec, text_key}
use lixs.Errno.{Status, ok, err, enoent, eacces}
use lixs.Permissions.{has_write_access}
use lixs.Util.{basename, join}
use lixs.Util.Basename.{length-join}
use lixs.Mstore.Database.{TEntry, Record, Database, at, valid}
use lixs.Mstore.Database.Laws.{at-modify, at-touch}
use lixs.Mstore.Transaction.{
  State, edit, edit_bump, get_tentry, fetch_tentry_data, fetch_tentry_children, te_of, store_te,
  bump, init_te, unregister_from_parent, rem_child, read_data, read_children, delete_all, del_body,
  del_from, del, tentry, te_valid, mark_deleted, current_children, longest,
}
use lixs.Mstore.Transaction.Hidden.{edit-at, edit_bump-at}

abbrev seen : Record → Option TEntry → Bool
seen r none = valid r.e
seen r (some te) = te_valid te

-- Is the path valid in the transaction?
abbrev pub visible : ℕ → Text → State → Bool
visible id j s = seen (at j s.db) (Map.find id (at j s.db).te)

-- Nothing becomes visible.
abbrev Fades : ℕ → State → State → Type 0
Fades id s s' = (j : Text) → visible id j s ≡ false → visible id j s' ≡ false

abbrev KeepsSeqs : (Record → TEntry → TEntry) → Type 0
KeepsSeqs f =
    (r : Record) (te : TEntry)
    → ((f r te).write_seq ≡ te.write_seq) × ((f r te).delete_seq ≡ te.delete_seq)

module _ (id : ℕ) (path : Text) (s : State) where
  -- What `get_tentry` returns tells whether the path is visible.
  pub tentry-visible : te_valid (tentry id path (get_tentry id path s)) ≡ visible id path s
  unfolding get_tentry
  tentry-visible = elim (Option-cases (Map.find id (at path s.db).te)) [
    | inl e ↦
        rw (e, get_tentry)
          (ground (
            arith,
            at-modify path path (λ r. bump (store_te id (init_te r) r)) s.db,
            Map.find-put id id (init_te (at path s.db)) (at path s.db).te,
          ))
    | inr (te, e) ↦ rw (e, get_tentry) (ground (arith, at-touch path path s.db))
  ]

  get_tentry-Fades : Fades id s (get_tentry id path s)
  unfolding get_tentry
  get_tentry-Fades j off = elim (Option-cases (Map.find id (at path s.db).te)) [
    | inl e ↦
        rw (e, get_tentry)
          (ground (
            arith,
            at-modify path j (λ r. bump (store_te id (init_te r) r)) s.db,
            Map.find-put id id (init_te (at path s.db)) (at path s.db).te,
          ))
    | inr (te, e) ↦ rw (e, get_tentry) (ground (arith, at-touch path j s.db))
  ]

  edit-Fades : (f : Record → TEntry → TEntry) → KeepsSeqs f → Fades id s (edit id path f s)
  edit-Fades f keeps j off = ground (
    arith,
    edit-at id path f s j,
    keeps (at path s.db) (te_of id (at path s.db)),
    Map.find-put id id (f (at path s.db) (te_of id (at path s.db))) (at path s.db).te,
  )

  edit_bump-Fades :
      (f : Record → TEntry → TEntry) → KeepsSeqs f → Fades id s (edit_bump id path f s)
  edit_bump-Fades f keeps j off = ground (
    arith,
    edit_bump-at id path f s j,
    keeps (at path s.db) (te_of id (at path s.db)),
    Map.find-put id id (f (at path s.db) (te_of id (at path s.db))) (at path s.db).te,
  )

  -- A change of one path shows at no other.
  mark-Fades_ne :
      (j : Text)
      → j ≢ path
      → visible id j s ≡ false
      → visible id j (edit_bump id path mark_deleted s) ≡ false
  mark-Fades_ne j ne off = ground (arith, edit_bump-at id path mark_deleted s j)

Fades-refl : (id : ℕ) (s : State) → Fades id s s
Fades-refl id s j off = off

read_data-KeepsSeqs : KeepsSeqs read_data
read_data-KeepsSeqs r te = ground arith

read_children-KeepsSeqs : KeepsSeqs read_children
read_children-KeepsSeqs r te = ground arith

module _ (id : ℕ) (path : Text) (s : State) where
  data-Fades : Fades id s (fetch_tentry_data id path s)
  unfolding fetch_tentry_data
  data-Fades j off = elim (Bool-cases ((tentry id path s).read_seq == 0)) [
    | inl e ↦ rw e (edit_bump-Fades id path s read_data read_data-KeepsSeqs j off)
    | inr e ↦ rw e off
  ]

  children-Fades : Fades id s (fetch_tentry_children id path s)
  unfolding fetch_tentry_children
  children-Fades j off = elim (Bool-cases ((tentry id path s).read_children_seq == 0)) [
    | inl e ↦ rw e (edit_bump-Fades id path s read_children read_children-KeepsSeqs j off)
    | inr e ↦ rw e off
  ]

  unregister-Fades : Fades id s (unregister_from_parent id path s)
  unfolding unregister_from_parent
  unregister-Fades j off = elim (Option-cases (basename path)) [
    | inl e ↦ rw (e, unregister_from_parent) off
    | inr ((p, n), e) ↦
        rw (e, unregister_from_parent)
          (edit-Fades id p _ (rem_child n) (λ r te. (refl, refl)) j (get_tentry-Fades id p s j off))
  ]

-- No path of this length is visible.
abbrev Bounded : ℕ → ℕ → State → Type 0
Bounded id n s = (j : Text) → n ≤ length j → visible id j s ≡ false

-- A result that leaves the bound in place.
abbrev Done : ℕ → ℕ → Option (Status × State) → Type 0
Done id n o = (r : Status × State) × (o ≡ some r) × Bounded id n r.1

delete_all-Done :
    (id n : ℕ) (run : Text → State → Option (Status × State)) (path : Text) (cs : List Text)
    (s : State)
    → ((c : Text) (t : State) → Bounded id n t → Done id n (run (join path c) t))
    → Bounded id n s
    → (t : State) × (delete_all run path cs s ≡ some t) × Bounded id n t
unfolding delete_all
delete_all-Done id n run path [] s rec b = (s, refl, b)
delete_all-Done id n run path (c ∷ cs) s rec b =
    let (r, e, b') = rec c s b in
    let (t, e', b'') = delete_all-Done id n run path cs r.1 rec b' in
    (t, rw (e, delete_all) e', b'')

-- One call: of an invisible path, and of a visible one whose children are deleted.
module _ (id n cid : ℕ) (run : Text → State → Option (Status × State)) (path : Text) (s : State)
    (b : Bounded id n s) where
  here-Bounded : Bounded id n (get_tentry id path s)
  here-Bounded j le = get_tentry-Fades id path s j (b j le)

  data-Bounded : Bounded id n (fetch_tentry_data id path (get_tentry id path s))
  data-Bounded j le = data-Fades id path _ j (here-Bounded j le)

  del_body-invisible : visible id path s ≡ false → Done id n (del_body run id cid path s)
  unfolding del_body
  del_body-invisible off = (
    (err enoent, get_tentry id path s),
    rw (tentry-visible id path s ∙ off, del_body),
    here-Bounded,
  )

  del_body-Done :
      length path < n
      → ((c : Text) (t : State) → Bounded id n t → Done id n (run (join path c) t))
      → Done id n (del_body run id cid path s)
  unfolding del_body
  del_body-Done short rec = elim (Bool-cases (visible id path s)) [
    | inr off ↦ del_body-invisible off
    | inl on ↦
        elim (Bool-cases (
          has_write_access cid
            (tentry id path (fetch_tentry_data id path (get_tentry id path s))).perms)) [
              | inr denied ↦ (
                (err eacces, fetch_tentry_data id path (get_tentry id path s)),
                rw (tentry-visible id path s ∙ on, del_body) (rw (denied, del_body)),
                data-Bounded,
              )
              | inl may ↦
                  let children : List Text = current_children (
                    tentry id path (
                      fetch_tentry_children id path
                        (fetch_tentry_data id path (get_tentry id path s)))) in
                  let (t, e, bt) =
                    delete_all-Done id n run path children
                      (fetch_tentry_children id path
                        (fetch_tentry_data id path (get_tentry id path s)))
                      rec (λ j le. children-Fades id path _ j (data-Bounded j le)) in
                  (
                    (ok tt, edit_bump id path mark_deleted (unregister_from_parent id path t)),
                    rw (tentry-visible id path s ∙ on, del_body)
                        (rw (may, del_body) (rw (e, del_body))),
                    λ j le.
                        mark-Fades_ne id path _ j (λ same. absurd (omega (arith, ap length same)))
                          (unregister-Fades id path t j (bt j le)),
                  )
            ]
  ]

del_from-Done :
    (f id n cid : ℕ) (path : Text) (s : State)
    → Bounded id n s
    → n ≤ length path + f
    → Done id n (del_from (suc f) id cid path s)
unfolding del_from
del_from-Done zero id n cid path s b le =
    del_body-invisible id n cid (del_from zero id 0) path s b (b path (omega arith))
del_from-Done (suc f) id n cid path s b le = elim (Bool-cases (ltb (length path) n)) [
  | inr long ↦ del_body-invisible id n cid (del_from (suc f) id 0) path s b (b path (ground arith))
  | inl short ↦
      del_body-Done id n cid (del_from (suc f) id 0) path s b (ground arith)
        λ c t bt. del_from-Done f id n 0 (join path c) t bt (omega (arith, length-join path c))
]

find-longest :
    (j : Text) (db : Database) {r : Record} → Map.find j db ≡ some r → length j ≤ longest db
unfolding Map.find
find-longest j [] e = cc
find-longest j ((k, q) ∷ db) {r} e = elim (text_dec k j) [
  | yes same ↦ omega (arith, ap length same)
  | no ne ↦ omega (arith, find-longest j db {r = r} (rw (if_neg _ ne) at e))
]

longest-Bounded : (id : ℕ) (s : State) → Bounded id (longest s.db + 1) s
unfolding at Map.find
longest-Bounded id s j le = elim (Option-cases (Map.find j s.db)) [
  | inl e ↦ rw e
  | inr (r, e) ↦ absurd (omega (arith, find-longest j s.db e))
]

-- In any state, whatever the path and the client, `del` ends with a result.
pub del_total :
    (id cid : ℕ) (path : Text) (s : State) → (r : Status × State) × (del id cid path s ≡ some r)
unfolding del
del_total id cid path s =
    let (r, e, b) =
      del_from-Done (longest s.db + 1) id (longest s.db + 1) cid path s (longest-Bounded id s)
        (omega arith) in
    (r, e)
