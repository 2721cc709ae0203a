-- ===== src/XsProto/Watch.antt =====
-- lib/lixs/xs_proto_v1/watch.cc: what a client is told when one of its watches fires; and the
-- construction and destruction of the protocol's side of a connection.
use lixs.Base.{
  ℕ, suc, ◌+◌, ◌≡◌, ◌∙◌, Bool, true, false, not, Option, none, some, [], ◌∷◌, ◌++◌, refl, ap, ltb,
  ltb-cases, Bool-cases, inl, inr, if◌then◌else◌, arith,
}
use lixs.Base.Map.{Map}
use lixs.Base.Text.{Text, length, length-++, drop}
use lixs.Util.{slash}
use lixs.Xenstore
use lixs.Xenstore.{Xenstore}
use lixs.XsProto.{xs_watch_event, WatchCb, Proto, Hdr}
use lixs.XsProto.Args.{get_arg1, get_path, is_absolute}

-- `none` is `std::out_of_range`, which `substr` throws.
unfoldable pub substr : ℕ → Text → Option Text
substr pos s = if ltb (length s) pos then none else some (drop pos s)

-- The path that a client is told.
unfoldable pub event_path : Text → Bool → Text → Option Text
event_path dom_path true fire_path = substr (length dom_path + 1) fire_path
event_path dom_path false fire_path = some fire_path

abbrev push : Proto → Text → Option Text → Option Proto
push p token none = none
push p token (some path) = some (record p {
  tx_queue =
      p.tx_queue
      ++ (record {
        type = xs_watch_event;
        req_id = 0;
        tx_id = 0;
        body = path ∷ token ∷ [];
        terminator = true;
      })
        ∷ [];
})

-- The call of a callback object, without the `process_tx` that it ends with.
unfoldable pub watch_cb : Proto → WatchCb → Text → Text → Option Proto
watch_cb p cb token fire_path = push p token (event_path p.dom_path cb.relative fire_path)

-- `path2rel`
unfoldable pub path2rel : Proto → Text → Option Text
path2rel p path = substr (length p.dom_path) path

-- The constructor: the header and the memory hold what the allocation left there.
unfoldable pub xs_proto_base : ℕ → Hdr → Text → Proto
xs_proto_base domid rx_hdr rx_body = record {
  domid = domid;
  dom_path = Xenstore.domain_path domid;
  rx_hdr = rx_hdr;
  rx_body = rx_body;
  tx_queue = [];
  watches = [];
}

-- The destructor of `xs_proto`.
unfoldable pub unwatch_all : (ℕ → Text) → Map (Text × Text) WatchCb → Xenstore → Xenstore
unwatch_all path_of [] xs = xs
unwatch_all path_of ((key, cb) ∷ watches) xs =
    unwatch_all path_of watches (Xenstore.watch_del path_of cb.addr xs)

drop-slash : (s t : Text) → drop (length s + 1) (s ++ slash ∷ t) ≡ t
unfolding drop
drop-slash [] t = refl
drop-slash (c ∷ s) t =
    let e : suc (length s) + 1 ≡ suc (length s + 1) = omega arith in
    ap (λ n. drop n (c ∷ (s ++ slash ∷ t))) e ∙ drop-slash s t

substr_join : (s t : Text) → substr (length s + 1) (s ++ slash ∷ t) ≡ some t
unfolding substr
substr_join s t =
    let whole = length-++ s (slash ∷ t) in
    elim (ltb-cases (length (s ++ slash ∷ t)) (length s + 1)) [
      | inl (_, short) ↦ absurd (omega arith)
      | inr (e, _) ↦ rw (e, substr) (ap some (drop-slash s t))
    ]

-- A request for a watch, whether its path was relative to the domain or not: when the watch fires at
-- the very path that was registered for it, one message joins the queue, an event of no request, whose
-- path is the argument as the client wrote it, and then the token.
pub watch_cb-get_path :
    (p q : Proto) (addr : ℕ) (token : Text)
    → q.dom_path ≡ p.dom_path
    → watch_cb q (record { addr = addr; relative = not (is_absolute p) }) token (get_path p)
      ≡ some (record q {
        tx_queue =
            q.tx_queue
            ++ (record {
              type = xs_watch_event;
              req_id = 0;
              tx_id = 0;
              body = get_arg1 p ∷ token ∷ [];
              terminator = true;
            })
              ∷ [];
      })
unfolding watch_cb get_path event_path substr
watch_cb-get_path p q addr token same = elim (Bool-cases (is_absolute p)) [
  | inl e ↦ rw (e, get_path) refl
  | inr e ↦
      rw (e, get_path)
        (ap (push q token) (
          ap (λ d. substr (length d + 1) (p.dom_path ++ slash ∷ get_arg1 p)) same
          ∙ substr_join p.dom_path (get_arg1 p)))
]
