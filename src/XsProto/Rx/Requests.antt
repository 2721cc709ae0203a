-- ===== src/XsProto/Rx/Requests.antt =====
-- lib/lixs/xs_proto_v1/xs_proto.cc: the requests as what `process_rx` handles, without the `process_tx`
-- that `handle_rx` ends with. The state is that of the program and that of a connection.
use mathlib.Core.Path.{subst}
use lixs.Base.{
  Option-cases, if_kept, ap, sym, none, ℕ, ◌≡◌, Option, some, refl, ◌&&◌, inl, inr, arith,
}
use lixs.Base.Key.{nat_key}
use lixs.Base.Text.{Text, pair_key}
use lixs.DomainMgr
use lixs.Errno.{Result-cases}
use lixs.Xenstore
use lixs.Xenstore.{Xenstore}
use lixs.XsProto.{
  MsgType, xs_debug, xs_directory, xs_read, xs_get_perms, xs_watch, xs_unwatch,
  xs_transaction_start, xs_transaction_end, xs_introduce, xs_release, xs_get_domain_path, xs_write,
  xs_mkdir, xs_rm, xs_set_perms, xs_watch_event, xs_error, xs_is_domain_introduced, xs_resume,
  xs_set_target, xs_restrict, xs_reset_watches, xs_unknown, XsWire, Proto,
}
use lixs.XsProto.Rx.{Given}
use lixs.XsProto.Rx.Laws.{Source, Handler}
use lixs.XsProto.Args.{get_path, get_arg1, get_int, domid_max}
use lixs.XsProto.Ops.{World, op_rm, op_release, is_self, dispatch, handle_rx}
use lixs.XsProto.EachAnswer.{
  Answers, status-Answers, op_directory-Answers, op_read-Answers, op_get_perms-Answers,
  op_set_perms-Answers, op_watch-Answers, op_unwatch-Answers, op_transaction_end-Answers,
  op_introduce-Answers, released-Answers, fail-Answers, op_introduced-Answers, op_path-Answers,
  op_unimplemented-Answers, op_write-Answers, op_mkdir-Answers, op_start-Answers,
}

module _ {D : Type 0} (w : XsWire) (path_of : ℕ → Text) (node : ℕ)
    (make_domain : ℕ → ℕ → ℕ → Option D) (ended : D → Xenstore → Xenstore) (self : Option ℕ) where
  -- Where a request is handled to its end, it is answered.
  Replies : MsgType → Proto → Option (Proto × World D) → Type 0
  Replies type p none = Unit {0}
  Replies type p (some r) = Answers type p r.0

  op_rm-Replies :
      (p : Proto) (s : World D) → Replies xs_rm p (op_rm w path_of node make_domain ended self p s)
  unfolding op_rm Replies
  op_rm-Replies p s =
      elim (Option-cases (Xenstore.store_rm path_of p.domid p.rx_hdr.tx_id (get_path p) s.xs)) [
        | inl e ↦ rw (e, op_rm) tt
        | inr ((ret, xs), e) ↦ rw (e, op_rm) (status-Answers w xs_rm ret p)
      ]

  op_release-Replies :
      (p : Proto) (s : World D)
      → Replies xs_release p (op_release w path_of node make_domain ended self p s)
  unfolding op_release Replies
  op_release-Replies p s = elim (Result-cases (get_int domid_max (get_arg1 p))) [
    | inr (x, e) ↦ rw (e, op_release) (fail-Answers w _ xs_release p)
    | inl (domid, e) ↦
        rw (e, op_release)
          (if_kept (Replies xs_release p) (is_self self domid && DomainMgr.exists domid s.dmgr) _ _
            (λ own. tt) (λ far. released-Answers w path_of node make_domain ended self _ p s))
  ]

  dispatch-Replies :
      (type : MsgType) (p : Proto) (s : World D)
      → Replies type p (dispatch w path_of node make_domain ended self type p s)
  unfolding dispatch Replies
  dispatch-Replies xs_directory p s = op_directory-Answers w path_of node make_domain ended self p s
  dispatch-Replies xs_read p s = op_read-Answers w path_of node make_domain ended self p s
  dispatch-Replies xs_write p s = op_write-Answers w path_of node make_domain ended self p s
  dispatch-Replies xs_mkdir p s = op_mkdir-Answers w path_of node make_domain ended self p s
  dispatch-Replies xs_rm p s = op_rm-Replies p s
  dispatch-Replies xs_get_perms p s = op_get_perms-Answers w path_of node make_domain ended self p s
  dispatch-Replies xs_set_perms p s = op_set_perms-Answers w path_of node make_domain ended self p s
  dispatch-Replies xs_watch p s = op_watch-Answers w path_of node make_domain ended self p s
  dispatch-Replies xs_unwatch p s = op_unwatch-Answers w path_of node make_domain ended self p s
  dispatch-Replies xs_transaction_start p s =
      op_start-Answers w path_of node make_domain ended self p s
  dispatch-Replies xs_transaction_end p s =
      op_transaction_end-Answers w path_of node make_domain ended self p s
  dispatch-Replies xs_introduce p s = op_introduce-Answers w path_of node make_domain ended self p s
  dispatch-Replies xs_is_domain_introduced p s =
      op_introduced-Answers w path_of node make_domain ended self p s
  dispatch-Replies xs_release p s = op_release-Replies p s
  dispatch-Replies xs_get_domain_path p s =
      op_path-Answers w path_of node make_domain ended self p s
  dispatch-Replies xs_debug p s =
      op_unimplemented-Answers w path_of node make_domain ended self xs_debug p s
  dispatch-Replies xs_resume p s =
      op_unimplemented-Answers w path_of node make_domain ended self xs_resume p s
  dispatch-Replies xs_set_target p s =
      op_unimplemented-Answers w path_of node make_domain ended self xs_set_target p s
  dispatch-Replies xs_restrict p s =
      op_unimplemented-Answers w path_of node make_domain ended self xs_restrict p s
  dispatch-Replies xs_reset_watches p s =
      op_unimplemented-Answers w path_of node make_domain ended self xs_reset_watches p s
  dispatch-Replies xs_watch_event p s =
      op_unimplemented-Answers w path_of node make_domain ended self xs_watch_event p s
  dispatch-Replies xs_error p s =
      op_unimplemented-Answers w path_of node make_domain ended self xs_error p s
  dispatch-Replies (xs_unknown n) p s =
      op_unimplemented-Answers w path_of node make_domain ended self (xs_unknown n) p s

module _ {D C : Type 0} where
  -- A connection that reads, beside the state of the program.
  abbrev pub read_with : (ℕ → C → Given C) → ℕ → World D × C → Given (World D × C)
  read_with read n (s, c) =
      let o = read n c in
      record { done = o.done; chunk = o.chunk; bytes = o.bytes; next = (s, o.next) }

  pub read_with-Source :
      (most : ℕ) (avail : C → ℕ) (Good : C → Type 0) (read : ℕ → C → Given C)
      → Source most avail Good read
      → Source most (λ (s : World D × C). avail s.1) (λ s. Good s.1) (read_with read)
  read_with-Source most avail Good read src = record {
    takes = λ n s good le. src.takes n s.1 good le;
    counts = λ n s good le. src.counts n s.1 good le;
    gives = λ n s good le done. src.gives n s.1 good le done;
    good = λ n s good le. src.good n s.1 good le;
  }

module _ {D C : Type 0} (w : XsWire) (path_of : ℕ → Text) (node : ℕ)
    (make_domain : ℕ → ℕ → ℕ → Option D) (ended : D → Xenstore → Xenstore) (self : Option ℕ) where
  abbrev pub with_conn : C → Option (Proto × World D) → Option (Proto × (World D × C))
  with_conn c none = none
  with_conn c (some (q, s)) = some (q, (s, c))

  abbrev pub requests : Proto → World D × C → Option (Proto × (World D × C))
  requests p (s, c) = with_conn c (handle_rx w path_of node make_domain ended self p s)

  Kept : Proto → C → Option (Proto × (World D × C)) → Type 0
  Kept p c none = Unit {0}
  Kept p c (some (q, (s, c'))) = (q.rx_body ≡ p.rx_body) × (q.dom_path ≡ p.dom_path) × (c' ≡ c)

  with_conn-Kept :
      (type : MsgType) (p : Proto) (c : C) (r : Option (Proto × World D))
      → Replies w path_of node make_domain ended self type p r
      → Kept p c (with_conn c r)
  unfolding Replies Kept
  with_conn-Kept type p c none a = tt
  with_conn-Kept type p c (some (q, s)) a = (a.rx_body, a.dom_path, refl)

  requests-Kept : (p : Proto) (s : World D) (c : C) → Kept p c (requests p (s, c))
  unfolding handle_rx
  requests-Kept p s c =
      with_conn-Kept (w.type_of p.rx_hdr.type) p c _
        (dispatch-Replies w path_of node make_domain ended self (w.type_of p.rx_hdr.type) p s)

  -- The requests are only read, and leave the connection as it is.
  pub requests-Handler :
      (avail : C → ℕ) (Good : C → Type 0)
      → Handler (λ (s : World D × C). avail s.1) (λ s. Good s.1) requests
  unfolding Kept
  requests-Handler avail Good = record {
    handles = λ p q s s' good e.
        (let kept = subst (Kept p s.1) e (requests-Kept p s.0 s.1) in
          record {
            body = kept.0;
            dom_path = kept.1;
            avails = (let same = ap avail kept.2 in omega arith);
            good = subst Good (sym kept.2) good;
          });
  }
