-- ===== src/Xenstore/Watches.antt =====
-- Which watches the operations of lib/lixs/xenstore.cc set off.
use lixs.Base.{
  ℕ, ◌≡◌, ◌≢◌, ◌∙◌, Bool, true, false, some, [], ◌++◌, ◌&&◌, ◌||◌, arith, refl, sym, ite,
  if◌then◌else◌, inl, inr,
}
use mathlib.Core.List.{append-nil}
use lixs.Base.Key.{nat_key}
use lixs.Base.Set
use lixs.Base.Set.{Set}
use lixs.Base.Text.{Text, text_dec}
use lixs.Errno.{Result-cases, Status, Result, ok, err, eagain}
use lixs.Mstore.Store
use lixs.Mstore.Store.{Store}
use lixs.Util.Below.{below}
use lixs.WatchMgr.{WatchMgr, pending, fire_children}
use lixs.WatchMgr.Heard.{
  heard, queue, fire_up-heard, fire_children-heard, fire_up-queue, fire_transaction-queue,
  end-pending,
}
use lixs.WatchMgr.Tracks.{Tracks}
use lixs.Xenstore.{Xenstore, fire_up, store_write, store_mkdir, store_rm, transaction_end}

abbrev pub is_ok : {A : Type 0} → Result A → Bool
is_ok (ok a) = true
is_ok (err e) = false

abbrev pub gives_true : Result Bool → Bool
gives_true (ok created) = created
gives_true (err e) = false

-- A registered callback whose own path is `path` or an ancestor of it.
abbrev pub watches : (ℕ → Text) → Set ℕ → ℕ → Text → Bool
watches path_of ws cb path =
    Set.has cb ws && ite (text_dec (path_of cb) path) true (below (path_of cb) path)

module _ (path_of : ℕ → Text) (ws : Set ℕ) (k : Text) (cb : ℕ) (p : Text) where
  fire_up-watches :
      (path : Text) (w : WatchMgr)
      → Tracks path_of ws w
      → heard k cb p (queue (fire_up 0 path w)) ≡ (
          heard k cb p (queue w)
          || ite
              (text_dec path p)
              (ite (text_dec (path_of cb) k) (watches path_of ws cb path) false)
              false)
  unfolding fire_up
  fire_up-watches path w t = (fire_up-heard path_of ws k cb p path w t).0

  -- A write outside of transactions, where the watch database holds exactly the registrations of
  -- `ws`. Afterwards an event that calls `cb` with the path `p`, under the key `k`, is in the queue if
  -- and only if one was there before, or the store took the write, `p` is the written path, `k` is the
  -- path of `cb`, where it is registered, and `cb` is in `ws` and watches the written path or one
  -- above it.
  pub store_write-heard :
      (cid : ℕ) (path val : Text) (x : Xenstore)
      → Tracks path_of ws x.wmgr
      → heard k cb p (queue (store_write cid 0 path val x).1.wmgr) ≡ (
          heard k cb p (queue x.wmgr)
          || (is_ok (Store.update cid 0 path val x.st).0
              && ite
                  (text_dec path p)
                  (ite (text_dec (path_of cb) k) (watches path_of ws cb path) false)
                  false))
  unfolding store_write
  store_write-heard cid path val x t = elim (Result-cases (Store.update cid 0 path val x.st).0) [
    | inl (u, e) ↦ rw (e, store_write) (fire_up-watches path x.wmgr t)
    | inr (e', e) ↦ rw (e, store_write) (ground arith)
  ]

  -- The removal of a path outside of transactions that the store carries out, where the watch
  -- database holds exactly the registrations of `ws`. It returns 0 and leaves the store's result.
  -- Afterwards an event that calls `cb` with the path `p`, under the key `k`, is in the queue if
  -- and only if one was there before, or `cb` is in `ws` and either `p` is the removed path, `k` is the
  -- path of `cb`, and `cb` watches the removed path or one above it, or `p` is the path of `cb`,
  -- lies below the removed one, and `k` is the removed path.
  pub store_rm-heard :
      (cid : ℕ) (path : Text) (st : Store) (x : Xenstore)
      → Tracks path_of ws x.wmgr
      → Store.del cid 0 path x.st ≡ some (ok tt, st)
      → (x' : Xenstore) × (store_rm path_of cid 0 path x ≡ some (ok tt, x'))
        × (x'.st ≡ st)
        × (heard k cb p (queue x'.wmgr) ≡ (
            heard k cb p (queue x.wmgr)
            || ite
                (text_dec path p)
                (ite (text_dec (path_of cb) k) (watches path_of ws cb path) false)
                false
            || ite
                (text_dec path k)
                (ite (text_dec (path_of cb) p) (Set.has cb ws && below path (path_of cb)) false)
                false))
  unfolding store_rm fire_up
  store_rm-heard cid path st x t e =
      let (up, t') = fire_up-heard path_of ws k cb p path x.wmgr t in
      let x' : Xenstore = record {
        st = st;
        wmgr = fire_children path_of 0 path (fire_up 0 path x.wmgr);
      } in
      (
        x',
        rw (e, store_rm),
        refl,
        fire_children-heard path_of ws k cb p path _ t' ∙ ground (arith, up),
      )

-- Under an id other than 0, `store_write` and `store_mkdir` leave the event queue as it is,
-- whatever their result.
pub write-queue :
    (cid tid : ℕ) (path val : Text) (x : Xenstore)
    → tid ≢ 0
    → (queue (store_write cid tid path val x).1.wmgr ≡ queue x.wmgr)
      × (queue (store_mkdir cid tid path x).1.wmgr ≡ queue x.wmgr)
unfolding store_write store_mkdir fire_up
write-queue cid tid path val x nz =
    let quiet = fire_up-queue tid path x.wmgr (ground arith) in
    (
      elim (Result-cases (Store.update cid tid path val x.st).0) [
        | inl (u, e) ↦ rw (e, store_write) quiet
        | inr (e', e) ↦ rw (e, store_write)
      ],
      elim (Result-cases (Store.create cid tid path x.st).0) [
        | inl (true, e) ↦ rw (e, store_mkdir) quiet
        | inl (false, e) ↦ rw (e, store_mkdir)
        | inr (e', e) ↦ rw (e, store_mkdir)
      ],
    )

-- The result of `transaction_end` for a commit.
abbrev pub end_status : Result Bool → Status
end_status (ok true) = ok tt
end_status (ok false) = err eagain
end_status (err e) = err e

-- The commit of a transaction: its waiting events join the queue, in order, if and only if the
-- store merged it; the result is 0 then, `eagain` where the store did not merge it, and the store's
-- error where it does not know the id. Where the store knows it, no event waits with it afterwards.
pub transaction_end-queue :
    (tid : ℕ) (x : Xenstore)
    → ((transaction_end tid true x).0 ≡ end_status (Store.merge tid x.st).0)
      × (queue (transaction_end tid true x).1.wmgr
          ≡ queue x.wmgr
            ++ (if gives_true (Store.merge tid x.st).0 then pending tid x.wmgr else []))
      × (pending tid (transaction_end tid true x).1.wmgr
          ≡ (if is_ok (Store.merge tid x.st).0 then [] else pending tid x.wmgr))
unfolding transaction_end lixs.WatchMgr.abort_transaction
transaction_end-queue tid x = elim (Result-cases (Store.merge tid x.st).0) [
  | inl (true, e) ↦
      rw (e, transaction_end) (refl, fire_transaction-queue tid x.wmgr, (end-pending tid x.wmgr).0)
  | inl (false, e) ↦ rw (e, transaction_end) (refl, sym (append-nil _), (end-pending tid x.wmgr).1)
  | inr (e', e) ↦ rw (e, transaction_end) (refl, sym (append-nil _), refl)
]
