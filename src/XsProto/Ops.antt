-- ===== src/XsProto/Ops.antt =====
-- lib/lixs/xs_proto_v1/xs_proto.cc: the requests. Each pushes its answer onto the queue of messages.
-- `path_of` is the path of a callback object, as in `watch_mgr`; `node` is the address that the map
-- of watches gives to a new callback; `make_domain` is the constructor of a domain, and `ended` what its
-- destructor does to the xenstore; `self` is the id of the domain to which the connection belongs that
-- the request came from, or `none` for one over a socket or the bus.
use lixs.Base.{
  ℕ, suc, ◌∷◌, ◌++◌, Bool, true, false, not, ◌&&◌, ◌==◌, Option, none, some, List, [], ite,
  if◌then◌else◌,
}
use lixs.Base.Decimal.{to_string}
use lixs.Base.Key.{nat_key}
use lixs.Base.Map
use lixs.Base.Map.{Map}
use lixs.Base.Text.{Text, codes, text_dec, pair_key}
use lixs.DomainMgr
use lixs.Errno.{Errno, Status, ok, err, enoent, einval, eexist, enosys}
use lixs.Permissions.{PermissionList}
use lixs.Xenstore
use lixs.Xenstore.{Xenstore}
use lixs.XsProto.{
  MsgType, xs_debug, xs_directory, xs_read, xs_get_perms, xs_watch, xs_unwatch,
  xs_transaction_start, xs_transaction_end, xs_introduce, xs_release, xs_get_domain_path, xs_write,
  xs_mkdir, xs_rm, xs_set_perms, xs_error, xs_is_domain_introduced, XsWire, WatchCb, Proto,
}
use lixs.XsProto.Args.{
  get_arg1, get_arg2, get_arg3, get_path, is_absolute, get_int, domid_max, uint_max,
}
use lixs.XsProto.Perms.{perm2str, collect_perms, err2str, ok_str}

-- The objects that the protocol refers to.
pub record World (D : Type 0) : Type 0 where
  pub xs : Xenstore
  pub dmgr : Map ℕ D

-- `tx_queue.push_back({…})`, with the ids of the request.
unfoldable pub reply : MsgType → List Text → Bool → Proto → Proto
reply type body terminator p = record p {
  tx_queue =
      p.tx_queue
      ++ (record {
        type = type;
        req_id = p.rx_hdr.req_id;
        tx_id = p.rx_hdr.tx_id;
        body = body;
        terminator = terminator;
      })
        ∷ [];
}

unfoldable pub perm_strs : PermissionList → List Text
perm_strs [] = []
perm_strs (r ∷ rs) = perm2str r ∷ perm_strs rs

-- The body of `XS_DIRECTORY`, which is closed by a null character unless it is empty.
abbrev pub has_elems : List Text → Bool
has_elems [] = false
has_elems (e ∷ es) = true

-- `strcmp(arg, "T") == 0`, `strcmp(arg, "F") == 0`
abbrev pub commit_of : Text → Option Bool
commit_of arg =
    ite (text_dec arg (codes "T")) (some true) (ite (text_dec arg (codes "F")) (some false) none)

module _ (w : XsWire) where
  unfoldable pub fail : Errno → Proto → Proto
  fail e p = reply xs_error (err2str w e ∷ []) false p

  -- The two answers of an operation that only returns a code.
  unfoldable pub reply_status : MsgType → Status → Proto → Proto
  reply_status type (ok u) p = reply type (ok_str ∷ []) false p
  reply_status type (err e) p = fail e p

module _ {D : Type 0} (w : XsWire) where
  abbrev pub introduced : MsgType → Status × Map ℕ D → Proto → World D → Proto × World D
  introduced type (ok u, dmgr) p s =
      (reply_status w type (ok u) p, record { xs = Xenstore.domain_introduce s.xs; dmgr = dmgr })
  introduced type (err e, dmgr) p s = (fail w e p, record s { dmgr = dmgr })

  abbrev pub released : Status × (Map ℕ D × Xenstore) → Proto → World D → Proto × World D
  released (ok u, (dmgr, xs)) p s =
      (reply_status w xs_release (ok u) p, record { xs = Xenstore.domain_release xs; dmgr = dmgr })
  released (err e, (dmgr, xs)) p s = (fail w e p, record { xs = xs; dmgr = dmgr })

-- The domain `domid` is that of the connection.
abbrev pub is_self : Option ℕ → ℕ → Bool
is_self none domid = false
is_self (some d) domid = d == domid

module _ {D : Type 0} (w : XsWire) (path_of : ℕ → Text) (node : ℕ)
    (make_domain : ℕ → ℕ → ℕ → Option D) (ended : D → Xenstore → Xenstore) (self : Option ℕ) where
  unfoldable pub op_directory : Proto → World D → Proto × World D
  op_directory p s =
      let (ret, xs) = Xenstore.store_dir p.domid p.rx_hdr.tx_id (get_path p) s.xs in
      elim ret [
        | ok result ↦ (reply xs_directory result (has_elems result) p, record s { xs = xs })
        | err e ↦ (fail w e p, record s { xs = xs })
      ]

  unfoldable pub op_read : Proto → World D → Proto × World D
  op_read p s =
      let (ret, xs) = Xenstore.store_read p.domid p.rx_hdr.tx_id (get_path p) s.xs in
      elim ret [
        | ok result ↦ (reply xs_read (result ∷ []) false p, record s { xs = xs })
        | err e ↦ (fail w e p, record s { xs = xs })
      ]

  unfoldable pub op_write : Proto → World D → Proto × World D
  op_write p s =
      let (ret, xs) = Xenstore.store_write p.domid p.rx_hdr.tx_id (get_path p) (get_arg2 p) s.xs in
      (reply_status w xs_write ret p, record s { xs = xs })

  unfoldable pub op_mkdir : Proto → World D → Proto × World D
  op_mkdir p s =
      let (ret, xs) = Xenstore.store_mkdir p.domid p.rx_hdr.tx_id (get_path p) s.xs in
      (reply_status w xs_mkdir ret p, record s { xs = xs })

  -- `none` stands for a deletion that does not end.
  unfoldable pub op_rm : Proto → World D → Option (Proto × World D)
  op_rm p s = elim (Xenstore.store_rm path_of p.domid p.rx_hdr.tx_id (get_path p) s.xs) [
    | none ↦ none
    | some (ret, xs) ↦ some (reply_status w xs_rm ret p, record s { xs = xs })
  ]

  unfoldable pub op_get_perms : Proto → World D → Proto × World D
  op_get_perms p s =
      let (ret, xs) = Xenstore.store_get_perms p.domid p.rx_hdr.tx_id (get_path p) s.xs in
      elim ret [
        | ok result ↦ (reply xs_get_perms (perm_strs result) true p, record s { xs = xs })
        | err e ↦ (fail w e p, record s { xs = xs })
      ]

  unfoldable pub op_set_perms : Proto → World D → Proto × World D
  op_set_perms p s = elim (collect_perms (suc p.rx_hdr.len) 0 p) [
    | none ↦ (fail w einval p, s)
    | some perms ↦
        let (ret, xs) = Xenstore.store_set_perms p.domid p.rx_hdr.tx_id (get_path p) perms s.xs in
        (reply_status w xs_set_perms ret p, record s { xs = xs })
  ]

  unfoldable pub op_watch : Proto → World D → Proto × World D
  op_watch p s = elim (Map.find (get_path p, get_arg2 p) p.watches) [
    | none ↦
        let cb : WatchCb = record { addr = node; relative = not (is_absolute p) } in
        (
          reply xs_watch (ok_str ∷ []) false
              (record p { watches = Map.put (get_path p, get_arg2 p) cb p.watches }),
          record s { xs = Xenstore.watch_add path_of node s.xs },
        )
    | some cb ↦ (fail w eexist p, s)
  ]

  unfoldable pub op_unwatch : Proto → World D → Proto × World D
  op_unwatch p s = elim (Map.find (get_path p, get_arg2 p) p.watches) [
    | none ↦ (fail w enoent p, s)
    | some cb ↦ (
      reply xs_unwatch (ok_str ∷ []) false
          (record p { watches = Map.erase (get_path p, get_arg2 p) p.watches }),
      record s { xs = Xenstore.watch_del path_of cb.addr s.xs },
    )
  ]

  unfoldable pub op_transaction_start : Proto → World D → Proto × World D
  op_transaction_start p s =
      let (tid, xs) = Xenstore.transaction_start s.xs in
      (reply xs_transaction_start (to_string tid ∷ []) true p, record s { xs = xs })

  unfoldable pub op_transaction_end : Proto → World D → Proto × World D
  op_transaction_end p s = elim (commit_of (get_arg1 p)) [
    | none ↦ (fail w einval p, s)
    | some commit ↦
        let (ret, xs) = Xenstore.transaction_end p.rx_hdr.tx_id commit s.xs in
        (reply_status w xs_transaction_end ret p, record s { xs = xs })
  ]

  unfoldable pub op_introduce : Proto → World D → Proto × World D
  op_introduce p s = elim (get_int domid_max (get_arg1 p)) [
    | err e ↦ (fail w einval p, s)
    | ok domid ↦ elim (get_int uint_max (get_arg2 p)) [
      | err e ↦ (fail w einval p, s)
      | ok mfn ↦ elim (get_int uint_max (get_arg3 p)) [
        | err e ↦ (fail w einval p, s)
        | ok port ↦
            introduced w xs_introduce (DomainMgr.create domid (make_domain domid port mfn) s.dmgr) p
              s
      ]
    ]
  ]

  -- `none` stands for what follows when the request deletes the connection that it came from: the rest
  -- of the operation works on a deleted object.
  unfoldable pub op_release : Proto → World D → Option (Proto × World D)
  op_release p s = elim (get_int domid_max (get_arg1 p)) [
    | err e ↦ some (fail w einval p, s)
    | ok domid ↦
        if is_self self domid && DomainMgr.exists domid s.dmgr
        then none
        else some (released w (DomainMgr.destroy ended domid s.dmgr s.xs) p s)
  ]

  -- A release of the client's own domain.
  unfoldable pub ends_itself : MsgType → Proto → World D → Bool
  ends_itself xs_release p s = elim (get_int domid_max (get_arg1 p)) [
    | err e ↦ false
    | ok domid ↦ is_self self domid && DomainMgr.exists domid s.dmgr
  ]
  ends_itself type p s = false

  unfoldable pub op_is_domain_introduced : Proto → World D → Proto × World D
  op_is_domain_introduced p s = elim (get_int domid_max (get_arg1 p)) [
    | err e ↦ (fail w einval p, s)
    | ok domid ↦ (
      reply xs_is_domain_introduced
          ((if DomainMgr.exists domid s.dmgr then codes "T" else codes "F") ∷ []) false p,
      s,
    )
  ]

  unfoldable pub op_get_domain_path : Proto → World D → Proto × World D
  op_get_domain_path p s = elim (get_int domid_max (get_arg1 p)) [
    | err e ↦ (fail w einval p, s)
    | ok domid ↦ (reply xs_get_domain_path (Xenstore.domain_path domid ∷ []) false p, s)
  ]

  unfoldable pub op_unimplemented : Proto → World D → Proto × World D
  op_unimplemented p s = (fail w enosys p, s)

  unfoldable pub dispatch : MsgType → Proto → World D → Option (Proto × World D)
  dispatch xs_directory p s = some (op_directory p s)
  dispatch xs_read p s = some (op_read p s)
  dispatch xs_write p s = some (op_write p s)
  dispatch xs_mkdir p s = some (op_mkdir p s)
  dispatch xs_rm p s = op_rm p s
  dispatch xs_get_perms p s = some (op_get_perms p s)
  dispatch xs_set_perms p s = some (op_set_perms p s)
  dispatch xs_watch p s = some (op_watch p s)
  dispatch xs_unwatch p s = some (op_unwatch p s)
  dispatch xs_transaction_start p s = some (op_transaction_start p s)
  dispatch xs_transaction_end p s = some (op_transaction_end p s)
  dispatch xs_introduce p s = some (op_introduce p s)
  dispatch xs_is_domain_introduced p s = some (op_is_domain_introduced p s)
  dispatch xs_release p s = op_release p s
  dispatch xs_get_domain_path p s = some (op_get_domain_path p s)
  dispatch xs_debug p s = some (op_unimplemented p s)
  dispatch type p s = some (op_unimplemented p s)

  -- `handle_rx`, without the `process_tx` that it ends with.
  unfoldable pub handle_rx : Proto → World D → Option (Proto × World D)
  handle_rx p s = dispatch (w.type_of p.rx_hdr.type) p s
