-- ===== src/XsProto/Answers.antt =====
-- Each request is answered.
use lixs.Base.{ℕ, ◌≡◌, Option, some, refl, false, ◌&&◌, inl, inr, arith}
use lixs.Base.Key.{nat_key}
use lixs.Base.Text.{Text, pair_key}
use lixs.DomainMgr
use lixs.Errno.{Status, ok, err, Result-cases}
use lixs.Mstore.Database.Sound.{IsSound}
use lixs.Mstore.Store
use lixs.Mstore.Store.Dispatch
use lixs.WatchMgr
use lixs.Xenstore
use lixs.Xenstore.{Xenstore}
use lixs.XsProto.{
  MsgType, xs_debug, xs_directory, xs_read, xs_get_perms, xs_watch, xs_unwatch,
  xs_transaction_start, xs_transaction_end, xs_introduce, xs_release, xs_get_domain_path, xs_write,
  xs_mkdir, xs_rm, xs_set_perms, xs_watch_event, xs_error, xs_is_domain_introduced, xs_resume,
  xs_set_target, xs_restrict, xs_reset_watches, xs_unknown, XsWire, Proto,
}
use lixs.XsProto.Args.{get_path, get_arg1, get_int, domid_max}
use lixs.XsProto.Ops.{World, op_rm, op_release, ends_itself, is_self, dispatch, handle_rx}
use lixs.XsProto.EachAnswer.{
  Answers, status-Answers, op_directory-Answers, op_read-Answers, op_get_perms-Answers,
  op_set_perms-Answers, op_watch-Answers, op_unwatch-Answers, op_transaction_end-Answers,
  op_introduce-Answers, released-Answers, fail-Answers, op_introduced-Answers, op_path-Answers,
  op_unimplemented-Answers, op_write-Answers, op_mkdir-Answers, op_start-Answers,
}

module _ {D : Type 0} (w : XsWire) (path_of : ℕ → Text) (node : ℕ)
    (make_domain : ℕ → ℕ → ℕ → Option D) (ended : D → Xenstore → Xenstore) (self : Option ℕ) where
  abbrev Answered : MsgType → Proto → Option (Proto × World D) → Type 0
  Answered type p r = (q : Proto) × (s' : World D) × (r ≡ some (q, s')) × Answers type p q

  answered :
      {type : MsgType} {p : Proto} (r : Proto × World D)
      → Answers type p r.0
      → Answered type p (some r)
  answered r a = (r.0, r.1, refl, a)

  rm_end :
      (cid tid : ℕ) (path : Text) (x : Xenstore.Xenstore) (r : Status × Store.Store)
      → Store.del cid tid path x.st ≡ some r
      → (r' : Status × Xenstore.Xenstore) × (Xenstore.store_rm path_of cid tid path x ≡ some r')
  unfolding Xenstore.store_rm
  rm_end cid tid path x (ok u, st) e = (
    (
      ok u,
      record {
        st = st;
        wmgr = WatchMgr.fire_children path_of tid path (Xenstore.fire_up tid path x.wmgr);
      },
    ),
    rw (e, Xenstore.store_rm) refl,
  )
  rm_end cid tid path x (err c, st) e =
      ((err c, record x { st = st }), rw (e, Xenstore.store_rm) refl)

  store_rm-ends :
      (cid tid : ℕ) (path : Text) (x : Xenstore.Xenstore)
      → IsSound x.st.db
      → (r : Status × Xenstore.Xenstore) × (Xenstore.store_rm path_of cid tid path x ≡ some r)
  store_rm-ends cid tid path x s =
      let (r, e) = Dispatch.del-ends cid tid path x.st s in rm_end cid tid path x r e

  op_rm-Answered :
      (p : Proto) (s : World D)
      → IsSound s.xs.st.db
      → Answered xs_rm p (op_rm w path_of node make_domain ended self p s)
  unfolding op_rm
  op_rm-Answered p s sound =
      let (r, e) = store_rm-ends p.domid p.rx_hdr.tx_id (get_path p) s.xs sound in
      rw (e, op_rm) (answered _ (status-Answers w xs_rm r.0 p))

  op_release-Answered :
      (p : Proto) (s : World D)
      → ends_itself w path_of node make_domain ended self xs_release p s ≡ false
      → Answered xs_release p (op_release w path_of node make_domain ended self p s)
  unfolding op_release ends_itself
  op_release-Answered p s other = elim (Result-cases (get_int domid_max (get_arg1 p))) [
    | inr (x, e) ↦ rw (e, op_release) (answered _ (fail-Answers w _ xs_release p))
    | inl (domid, e) ↦
        let far : (is_self self domid && DomainMgr.exists domid s.dmgr) ≡ false =
          ground (arith, e, other) in
        rw (e, op_release)
          (rw (far, op_release)
            (answered _ (released-Answers w path_of node make_domain ended self _ p s)))
  ]

  dispatch-Answered :
      (type : MsgType) (p : Proto) (s : World D)
      → IsSound s.xs.st.db
      → ends_itself w path_of node make_domain ended self type p s ≡ false
      → Answered type p (dispatch w path_of node make_domain ended self type p s)
  unfolding dispatch
  dispatch-Answered xs_directory p s sound other =
      answered _ (op_directory-Answers w path_of node make_domain ended self p s)
  dispatch-Answered xs_read p s sound other =
      answered _ (op_read-Answers w path_of node make_domain ended self p s)
  dispatch-Answered xs_write p s sound other =
      answered _ (op_write-Answers w path_of node make_domain ended self p s)
  dispatch-Answered xs_mkdir p s sound other =
      answered _ (op_mkdir-Answers w path_of node make_domain ended self p s)
  dispatch-Answered xs_rm p s sound other = op_rm-Answered p s sound
  dispatch-Answered xs_get_perms p s sound other =
      answered _ (op_get_perms-Answers w path_of node make_domain ended self p s)
  dispatch-Answered xs_set_perms p s sound other =
      answered _ (op_set_perms-Answers w path_of node make_domain ended self p s)
  dispatch-Answered xs_watch p s sound other =
      answered _ (op_watch-Answers w path_of node make_domain ended self p s)
  dispatch-Answered xs_unwatch p s sound other =
      answered _ (op_unwatch-Answers w path_of node make_domain ended self p s)
  dispatch-Answered xs_transaction_start p s sound other =
      answered _ (op_start-Answers w path_of node make_domain ended self p s)
  dispatch-Answered xs_transaction_end p s sound other =
      answered _ (op_transaction_end-Answers w path_of node make_domain ended self p s)
  dispatch-Answered xs_introduce p s sound other =
      answered _ (op_introduce-Answers w path_of node make_domain ended self p s)
  dispatch-Answered xs_is_domain_introduced p s sound other =
      answered _ (op_introduced-Answers w path_of node make_domain ended self p s)
  dispatch-Answered xs_release p s sound other = op_release-Answered p s other
  dispatch-Answered xs_get_domain_path p s sound other =
      answered _ (op_path-Answers w path_of node make_domain ended self p s)
  dispatch-Answered xs_debug p s sound other =
      answered _ (op_unimplemented-Answers w path_of node make_domain ended self xs_debug p s)
  dispatch-Answered xs_resume p s sound other =
      answered _ (op_unimplemented-Answers w path_of node make_domain ended self xs_resume p s)
  dispatch-Answered xs_set_target p s sound other =
      answered _ (op_unimplemented-Answers w path_of node make_domain ended self xs_set_target p s)
  dispatch-Answered xs_restrict p s sound other =
      answered _ (op_unimplemented-Answers w path_of node make_domain ended self xs_restrict p s)
  dispatch-Answered xs_reset_watches p s sound other =
      answered _
        (op_unimplemented-Answers w path_of node make_domain ended self xs_reset_watches p s)
  dispatch-Answered xs_watch_event p s sound other =
      answered _ (op_unimplemented-Answers w path_of node make_domain ended self xs_watch_event p s)
  dispatch-Answered xs_error p s sound other =
      answered _ (op_unimplemented-Answers w path_of node make_domain ended self xs_error p s)
  dispatch-Answered (xs_unknown n) p s sound other =
      answered _ (op_unimplemented-Answers w path_of node make_domain ended self (xs_unknown n) p s)

  -- Over a sound database each request, whatever its type and its arguments, but for a domain's release
  -- of itself, is handled to its end, and puts exactly one message behind those of the queue: it has
  -- the request's id and transaction, and the request's type or that of an error.
  pub handle_rx-Answers :
      (p : Proto) (s : World D)
      → IsSound s.xs.st.db
      → ends_itself w path_of node make_domain ended self (w.type_of p.rx_hdr.type) p s ≡ false
      → (q : Proto) × (s' : World D) × (handle_rx w path_of node make_domain ended self p s
          ≡ some (q, s'))
        × Answers (w.type_of p.rx_hdr.type) p q
  unfolding handle_rx
  handle_rx-Answers p s sound other = dispatch-Answered (w.type_of p.rx_hdr.type) p s sound other
