-- ===== src/XsProto/EachAnswer.antt =====
-- Each of the requests but the removal is answered.
use lixs.Base.{
  ℕ, suc, ◌≡◌, ◌⊎◌, Bool, true, false, Option, List, [], ◌∷◌, ◌++◌, refl, inl, inr, Option-cases,
}
use lixs.Base.Key.{nat_key}
use lixs.Base.Map
use lixs.Base.Map.{Map}
use lixs.Base.Text.{Text, pair_key}
use lixs.Errno.{Errno, Status, ok, err, Result-cases}
use lixs.Xenstore
use lixs.Xenstore.{Xenstore}
use lixs.XsProto.{
  MsgType, xs_directory, xs_read, xs_get_perms, xs_watch, xs_unwatch, xs_transaction_start,
  xs_transaction_end, xs_introduce, xs_release, xs_get_domain_path, xs_write, xs_mkdir,
  xs_set_perms, xs_error, xs_is_domain_introduced, XsWire, Message, Proto,
}
use lixs.XsProto.Args.{get_arg1, get_arg2, get_arg3, get_path, get_int, domid_max, uint_max}
use lixs.XsProto.Perms.{collect_perms}
use lixs.XsProto.Ops.{
  World, reply, fail, reply_status, op_directory, op_read, op_write, op_mkdir, op_get_perms,
  op_set_perms, op_watch, op_unwatch, op_transaction_start, op_transaction_end, commit_of,
  introduced, op_introduce, released, op_is_domain_introduced, op_get_domain_path, op_unimplemented,
}

-- From `p` to `q` one message has joined the queue, which answers the request: it has its ids, and
-- its type or that of an error. The request itself stays.
pub record Answers (type : MsgType) (p q : Proto) : Type 0 where
  pub answer : Message
  pub queue : q.tx_queue ≡ p.tx_queue ++ answer ∷ []
  pub req_id : answer.req_id ≡ p.rx_hdr.req_id
  pub tx_id : answer.tx_id ≡ p.rx_hdr.tx_id
  pub kind : (answer.type ≡ type) ⊎ (answer.type ≡ xs_error)
  pub rx_body : q.rx_body ≡ p.rx_body
  pub dom_path : q.dom_path ≡ p.dom_path

pub reply-Answers :
    (type : MsgType) (body : List Text) (t : Bool) (p : Proto)
    → Answers type p (reply type body t p)
unfolding reply
reply-Answers type body t p = record {
  answer = _;
  queue = refl;
  req_id = refl;
  tx_id = refl;
  kind = inl refl;
  rx_body = refl;
  dom_path = refl;
}

pub fail-Answers :
    (w : XsWire) (e : Errno) (type : MsgType) (p : Proto) → Answers type p (fail w e p)
unfolding fail reply
fail-Answers w e type p = record {
  answer = _;
  queue = refl;
  req_id = refl;
  tx_id = refl;
  kind = inr refl;
  rx_body = refl;
  dom_path = refl;
}

pub status-Answers :
    (w : XsWire) (type : MsgType) (r : Status) (p : Proto)
    → Answers type p (reply_status w type r p)
unfolding reply_status
status-Answers w type (ok u) p = reply-Answers type _ false p
status-Answers w type (err e) p = fail-Answers w e type p

module _ {D : Type 0} (w : XsWire) (path_of : ℕ → Text) (node : ℕ)
    (make_domain : ℕ → ℕ → ℕ → Option D) (ended : D → Xenstore → Xenstore) (self : Option ℕ) where
  pub op_directory-Answers :
      (p : Proto) (s : World D)
      → Answers xs_directory p (op_directory w path_of node make_domain ended self p s).0
  unfolding op_directory
  op_directory-Answers p s =
      elim (Result-cases (Xenstore.store_dir p.domid p.rx_hdr.tx_id (get_path p) s.xs).0) [
        | inl (a, e) ↦ rw (e, op_directory) (reply-Answers xs_directory _ _ p)
        | inr (x, e) ↦ rw (e, op_directory) (fail-Answers w x xs_directory p)
      ]

  pub op_read-Answers :
      (p : Proto) (s : World D)
      → Answers xs_read p (op_read w path_of node make_domain ended self p s).0
  unfolding op_read
  op_read-Answers p s =
      elim (Result-cases (Xenstore.store_read p.domid p.rx_hdr.tx_id (get_path p) s.xs).0) [
        | inl (a, e) ↦ rw (e, op_read) (reply-Answers xs_read _ _ p)
        | inr (x, e) ↦ rw (e, op_read) (fail-Answers w x xs_read p)
      ]

  pub op_get_perms-Answers :
      (p : Proto) (s : World D)
      → Answers xs_get_perms p (op_get_perms w path_of node make_domain ended self p s).0
  unfolding op_get_perms
  op_get_perms-Answers p s =
      elim (Result-cases (Xenstore.store_get_perms p.domid p.rx_hdr.tx_id (get_path p) s.xs).0) [
        | inl (a, e) ↦ rw (e, op_get_perms) (reply-Answers xs_get_perms _ _ p)
        | inr (x, e) ↦ rw (e, op_get_perms) (fail-Answers w x xs_get_perms p)
      ]

  pub op_set_perms-Answers :
      (p : Proto) (s : World D)
      → Answers xs_set_perms p (op_set_perms w path_of node make_domain ended self p s).0
  unfolding op_set_perms
  op_set_perms-Answers p s = elim (Option-cases (collect_perms (suc p.rx_hdr.len) 0 p)) [
    | inl e ↦ rw (e, op_set_perms) (fail-Answers w _ xs_set_perms p)
    | inr (perms, e) ↦ rw (e, op_set_perms) (status-Answers w xs_set_perms _ p)
  ]

  pub op_watch-Answers :
      (p : Proto) (s : World D)
      → Answers xs_watch p (op_watch w path_of node make_domain ended self p s).0
  unfolding op_watch reply fail
  op_watch-Answers p s = elim (Option-cases (Map.find (get_path p, get_arg2 p) p.watches)) [
    | inl e ↦
        rw (e, op_watch)
          (record {
            answer = _;
            queue = refl;
            req_id = refl;
            tx_id = refl;
            kind = inl refl;
            rx_body = refl;
            dom_path = refl;
          })
    | inr (cb, e) ↦ rw (e, op_watch) (fail-Answers w _ xs_watch p)
  ]

  pub op_unwatch-Answers :
      (p : Proto) (s : World D)
      → Answers xs_unwatch p (op_unwatch w path_of node make_domain ended self p s).0
  unfolding op_unwatch reply fail
  op_unwatch-Answers p s = elim (Option-cases (Map.find (get_path p, get_arg2 p) p.watches)) [
    | inl e ↦ rw (e, op_unwatch) (fail-Answers w _ xs_unwatch p)
    | inr (cb, e) ↦
        rw (e, op_unwatch)
          (record {
            answer = _;
            queue = refl;
            req_id = refl;
            tx_id = refl;
            kind = inl refl;
            rx_body = refl;
            dom_path = refl;
          })
  ]

  pub op_transaction_end-Answers :
      (p : Proto) (s : World D)
      → Answers xs_transaction_end p
          (op_transaction_end w path_of node make_domain ended self p s).0
  unfolding op_transaction_end
  op_transaction_end-Answers p s = elim (Option-cases (commit_of (get_arg1 p))) [
    | inl e ↦ rw (e, op_transaction_end) (fail-Answers w _ xs_transaction_end p)
    | inr (commit, e) ↦ rw (e, op_transaction_end) (status-Answers w xs_transaction_end _ p)
  ]

  pub introduced-Answers :
      (r : Status × Map ℕ D) (p : Proto) (s : World D)
      → Answers xs_introduce p (introduced w xs_introduce r p s).0
  introduced-Answers (ok u, dmgr) p s = status-Answers w xs_introduce (ok u) p
  introduced-Answers (err e, dmgr) p s = fail-Answers w e xs_introduce p

  pub op_introduce-Answers :
      (p : Proto) (s : World D)
      → Answers xs_introduce p (op_introduce w path_of node make_domain ended self p s).0
  unfolding op_introduce
  op_introduce-Answers p s = elim (Result-cases (get_int domid_max (get_arg1 p))) [
    | inr (x, e) ↦ rw (e, op_introduce) (fail-Answers w _ xs_introduce p)
    | inl (domid, e) ↦ elim (Result-cases (get_int uint_max (get_arg2 p))) [
      | inr (x, e') ↦ rw (e, op_introduce) (rw (e', op_introduce) (fail-Answers w _ xs_introduce p))
      | inl (mfn, e') ↦ elim (Result-cases (get_int uint_max (get_arg3 p))) [
        | inr (x, e'') ↦
            rw (e, op_introduce)
              (rw (e', op_introduce) (rw (e'', op_introduce) (fail-Answers w _ xs_introduce p)))
        | inl (port, e'') ↦
            rw (e, op_introduce)
              (rw (e', op_introduce) (rw (e'', op_introduce) (introduced-Answers _ p s)))
      ]
    ]
  ]

  pub released-Answers :
      (r : Status × (Map ℕ D × Xenstore)) (p : Proto) (s : World D)
      → Answers xs_release p (released w r p s).0
  released-Answers (ok u, (dmgr, xs)) p s = status-Answers w xs_release (ok u) p
  released-Answers (err e, (dmgr, xs)) p s = fail-Answers w e xs_release p

  pub op_introduced-Answers :
      (p : Proto) (s : World D)
      → Answers xs_is_domain_introduced p
          (op_is_domain_introduced w path_of node make_domain ended self p s).0
  unfolding op_is_domain_introduced
  op_introduced-Answers p s = elim (Result-cases (get_int domid_max (get_arg1 p))) [
    | inr (x, e) ↦ rw (e, op_is_domain_introduced) (fail-Answers w _ xs_is_domain_introduced p)
    | inl (domid, e) ↦
        rw (e, op_is_domain_introduced) (reply-Answers xs_is_domain_introduced _ false p)
  ]

  pub op_path-Answers :
      (p : Proto) (s : World D)
      → Answers xs_get_domain_path p
          (op_get_domain_path w path_of node make_domain ended self p s).0
  unfolding op_get_domain_path
  op_path-Answers p s = elim (Result-cases (get_int domid_max (get_arg1 p))) [
    | inr (x, e) ↦ rw (e, op_get_domain_path) (fail-Answers w _ xs_get_domain_path p)
    | inl (domid, e) ↦ rw (e, op_get_domain_path) (reply-Answers xs_get_domain_path _ false p)
  ]

  pub op_unimplemented-Answers :
      (type : MsgType) (p : Proto) (s : World D)
      → Answers type p (op_unimplemented w path_of node make_domain ended self p s).0
  unfolding op_unimplemented
  op_unimplemented-Answers type p s = fail-Answers w _ type p

  pub op_write-Answers :
      (p : Proto) (s : World D)
      → Answers xs_write p (op_write w path_of node make_domain ended self p s).0
  unfolding op_write
  op_write-Answers p s = status-Answers w xs_write _ p

  pub op_mkdir-Answers :
      (p : Proto) (s : World D)
      → Answers xs_mkdir p (op_mkdir w path_of node make_domain ended self p s).0
  unfolding op_mkdir
  op_mkdir-Answers p s = status-Answers w xs_mkdir _ p

  pub op_start-Answers :
      (p : Proto) (s : World D)
      → Answers xs_transaction_start p
          (op_transaction_start w path_of node make_domain ended self p s).0
  unfolding op_transaction_start
  op_start-Answers p s = reply-Answers xs_transaction_start _ true p
  -- What it is for a request to be answered.
