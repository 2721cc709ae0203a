-- ===== src/Mstore/Transaction/Hidden.antt =====
-- What stays as it is under the operations of a transaction, and the steps that they are made of.
use lixs.Base.{
  ℕ, ◌≤◌, ◌≡◌, ◌≢◌, ◌∙◌, Bool, true, false, arith, refl, inl, inr, Option-cases, ite, if◌then◌else◌,
}
use lixs.Base.Key.{nat_key}
use lixs.Base.Map
use lixs.Base.Text.{Text, text_dec, text_key}
use lixs.Util.{basename}
use lixs.Mstore.Database.{TEntry, Record, at}
use lixs.Mstore.Database.Laws.{at-modify, at-touch}
use lixs.Mstore.Transaction.{
  State, te_of, store_te, bump, edit, edit_bump, get_tentry, init_te, fetch_tentry_data,
  fetch_tentry_children, register_with_parent, unregister_from_parent, get_parent_perms,
  inherit_perms, ensure_branch, read_data, read_children,
}

pub record Hidden (id : ℕ) (s s' : State) : Type 0 where
  pub entries : (j : Text) → (at j s'.db).e ≡ (at j s.db).e
  pub others : (j : Text) (k : ℕ) → k ≢ id → Map.find k (at j s'.db).te ≡ Map.find k (at j s.db).te
  pub seqs : (j : Text) → (at j s.db).next_seq ≤ (at j s'.db).next_seq

pub Hidden-refl : (id : ℕ) (s : State) → Hidden id s s
Hidden-refl id s = record { entries = λ j. refl; others = λ j k ne. refl; seqs = λ j. omega arith }

pub Hidden-trans : {id : ℕ} {a b c : State} → Hidden id a b → Hidden id b c → Hidden id a c
Hidden-trans p q = record {
  entries = λ j. q.entries j ∙ p.entries j;
  others = λ j k ne. q.others j k ne ∙ p.others j k ne;
  seqs = λ j. omega (arith, p.seqs j, q.seqs j);
}

pub Hidden-if :
    {id : ℕ} {s t u : State} (b : Bool)
    → Hidden id s t
    → Hidden id s u
    → Hidden id s (if b then t else u)
Hidden-if true p q = p
Hidden-if false p q = q

-- The same of an operation that also returns a result.
pub record Ends {ℓ} {A : Type ℓ} (id : ℕ) (s : State) (r : A × State) : Type ℓ where
  pub hidden : Hidden id s r.1

module _ {ℓ} {A : Type ℓ} {id : ℕ} {s : State} where
  pub Ends-pair : {t : State} (a : A) → Hidden id s t → Ends id s (a, t)
  Ends-pair a h = record { hidden = h }

  pub Ends-if :
      (b : Bool) (r q : A × State) → Ends id s r → Ends id s q → Ends id s (if b then r else q)
  Ends-if true r q x y = x
  Ends-if false r q x y = y

module _ (id : ℕ) (path : Text) (f : Record → TEntry → TEntry) (s : State) where
  pub edit-at :
      (j : Text)
      → at j (edit id path f s).db
        ≡ ite
            (text_dec path j)
            (store_te id (f (at path s.db) (te_of id (at path s.db))) (at path s.db))
            (at j s.db)
  unfolding edit
  edit-at j = at-modify path j _ s.db

  pub edit_bump-at :
      (j : Text)
      → at j (edit_bump id path f s).db
        ≡ ite
            (text_dec path j)
            (bump (store_te id (f (at path s.db) (te_of id (at path s.db))) (at path s.db)))
            (at j s.db)
  unfolding edit_bump
  edit_bump-at j = at-modify path j _ s.db

  pub edit-Hidden : Hidden id s (edit id path f s)
  edit-Hidden = record {
    entries = λ j. ground (arith, edit-at j);
    others = λ j k ne. ground (
      arith,
      edit-at j,
      Map.find-put id k (f (at path s.db) (te_of id (at path s.db))) (at path s.db).te,
    );
    seqs = λ j. ground (arith, edit-at j);
  }

  pub edit_bump-Hidden : Hidden id s (edit_bump id path f s)
  edit_bump-Hidden = record {
    entries = λ j. ground (arith, edit_bump-at j);
    others = λ j k ne. ground (
      arith,
      edit_bump-at j,
      Map.find-put id k (f (at path s.db) (te_of id (at path s.db))) (at path s.db).te,
    );
    seqs = λ j. ground (arith, edit_bump-at j);
  }

module _ (id : ℕ) (path : Text) (s : State) where
  pub get_tentry-Hidden : Hidden id s (get_tentry id path s)
  unfolding get_tentry
  get_tentry-Hidden = elim (Option-cases (Map.find id (at path s.db).te)) [
    | inl e ↦
        rw (e, get_tentry)
          (record {
            entries =
                λ j. ground (arith, at-modify path j (λ r. bump (store_te id (init_te r) r)) s.db);
            others = λ j k ne. ground (
              arith,
              at-modify path j (λ r. bump (store_te id (init_te r) r)) s.db,
              Map.find-put id k (init_te (at path s.db)) (at path s.db).te,
            );
            seqs =
                λ j. ground (arith, at-modify path j (λ r. bump (store_te id (init_te r) r)) s.db);
          })
    | inr (te, e) ↦
        rw (e, get_tentry)
          (record {
            entries = λ j. ground (arith, at-touch path j s.db);
            others = λ j k ne. ground (arith, at-touch path j s.db);
            seqs = λ j. ground (arith, at-touch path j s.db);
          })
  ]

  pub data-Hidden : Hidden id s (fetch_tentry_data id path s)
  unfolding fetch_tentry_data
  data-Hidden = Hidden-if _ (edit_bump-Hidden id path read_data s) (Hidden-refl id s)

  pub children-Hidden : Hidden id s (fetch_tentry_children id path s)
  unfolding fetch_tentry_children
  children-Hidden = Hidden-if _ (edit_bump-Hidden id path read_children s) (Hidden-refl id s)

module _ (id : ℕ) (path : Text) (s : State) where
  pub register-Hidden : Hidden id s (register_with_parent id path s)
  unfolding register_with_parent
  register-Hidden = elim (Option-cases (basename path)) [
    | inl e ↦ rw (e, register_with_parent) (Hidden-refl id s)
    | inr ((p, n), e) ↦
        rw (e, register_with_parent)
          (Hidden-trans (get_tentry-Hidden id p s) (edit-Hidden id p _ _))
  ]

  pub unregister-Hidden : Hidden id s (unregister_from_parent id path s)
  unfolding unregister_from_parent
  unregister-Hidden = elim (Option-cases (basename path)) [
    | inl e ↦ rw (e, unregister_from_parent) (Hidden-refl id s)
    | inr ((p, n), e) ↦
        rw (e, unregister_from_parent)
          (Hidden-trans (get_tentry-Hidden id p s) (edit-Hidden id p _ _))
  ]

  pub parent_perms-Hidden : Hidden id s (get_parent_perms id path s).1
  unfolding get_parent_perms
  parent_perms-Hidden = elim (Option-cases (basename path)) [
    | inl e ↦ rw (e, get_parent_perms) (Hidden-refl id s)
    | inr ((p, n), e) ↦
        rw (e, get_parent_perms) (Hidden-trans (get_tentry-Hidden id p s) (data-Hidden id p _))
  ]

  pub inherit-Hidden : Hidden id s (inherit_perms id path s)
  unfolding inherit_perms
  inherit-Hidden = Hidden-trans parent_perms-Hidden (edit-Hidden id path _ _)

  module _ (f : ℕ → Text → State → Bool × State) (cid : ℕ)
      (rec : (p : Text) (t : State) → Hidden id t (f cid p t).1) where
    pub branch-Hidden : Hidden id s (ensure_branch f cid path s)
    unfolding ensure_branch
    branch-Hidden = elim (Option-cases (basename path)) [
      | inl e ↦ rw (e, ensure_branch) (Hidden-refl id s)
      | inr ((p, n), e) ↦ rw (e, ensure_branch) (rec p s)
    ]
