-- ===== src/Tests/Proto.antt =====
-- Requests and messages at small inputs.
use lixs.Base.{
  sym, ℕ, zero, suc, ◌-◌, ◌^◌, ◌+◌, ◌%◌, ◌*◌, ◌≤◌, ◌<◌, ◌≡◌, true, false, Option, none, some, [],
  ◌∷◌, ◌++◌, refl, not, ◌==◌, if◌then◌else◌, arith,
}
use lixs.Base.Text.{Text, codes, length, take, drop}
use lixs.Errno.{enosys, e2big}
use lixs.EventMgr
use lixs.Mstore.Database.Sound.{IsSound, IsSound-nil}
use lixs.Mstore.Store
use lixs.WatchMgr
use lixs.XsProto.{
  MsgType, xs_read, xs_rm, xs_error, xs_watch_event, xs_unknown, XsWire, Hdr, Message, WatchCb,
  Proto,
}
use lixs.XsProto.Args.{get_path, get_arg1, is_absolute}
use lixs.Permissions.{Permission}
use lixs.XsProto.Perms.{find_err, same_err, err2str, perm2str, str2perm}
use lixs.XsProto.Perms.RoundTrip.{str2perm-perm2str}
use lixs.XsProto.Body.{Wire, joined, prepare_tx}
use lixs.Xenstore.{Xenstore}
use lixs.XsProto.Ops.{World, fail, handle_rx}
use lixs.XsProto.EachAnswer.{Answers}
use lixs.XsProto.Answers.{handle_rx-Answers}
use lixs.XsProto.Sizes.{Fits, prepare_tx-Fits}
use lixs.XsProto.Rx.{Rx, Given, Turn, at_start, stop, overflow, process_rx}
use lixs.XsProto.Rx.Laws.{Source, Handler}
use lixs.XsProto.Rx.Requests.{read_with, read_with-Source, requests, requests-Handler}
use lixs.XsProto.Rx.Bounds.{IsRx, Ended, process_rx-IsRx}
use lixs.RingConn.{RingConn}
use lixs.RingConn.Stream.{pending, stream}
use lixs.RingConn.Source.{avail, Shared, read_from, ring-Source}
use lixs.Tests.Conns.{eight, eight-IsRing, filled, filled-Shared, shared-IsSending}
use lixs.XsProto.Tx.{Tx, process_tx}
use lixs.XsProto.Tx.Laws.{Ready, Small}
use lixs.XsProto.Tx.Owed.{owed}
use lixs.XsProto.Tx.Order.{owed-process_tx}
use lixs.RingConn.Sink.{write_to, waits, Sending, ring-Sink}
use lixs.XsProto.Watch.{watch_cb, watch_cb-get_path}

-- A header of two bytes: the type, and the length, which does not exceed the maximum of eight.
abbrev pub decode : Text → Hdr
decode [] = record { type = 0; req_id = 0; tx_id = 0; len = 0 }
decode (t ∷ []) = record { type = t; req_id = 0; tx_id = 0; len = 0 }
decode (t ∷ n ∷ rest) = record { type = t; req_id = 0; tx_id = 0; len = n % 9 }

abbrev pub type_of : ℕ → MsgType
type_of n = if n == 1 then xs_read else if n == 2 then xs_rm else xs_unknown n

abbrev pub code_of : MsgType → ℕ
code_of xs_read = 1
code_of xs_rm = 2
code_of type = 3

abbrev pub wire : XsWire
wire = record {
  type_of = type_of;
  code_of = code_of;
  hdr_size = 2;
  decode_hdr = decode;
  encode_hdr = λ h. h.type ∷ h.len ∷ [];
  payload_max = 8;
  xsd_errors = (e2big, codes "E2BIG") ∷ (enosys, codes "ENOSYS") ∷ [];
}

-- A request to remove `a`, which is relative to the path of the domain.
abbrev pub request : Proto
request = record {
  domid = 1;
  dom_path = codes "/d";
  rx_hdr = record { type = 2; req_id = 5; tx_id = 0; len = 2 };
  rx_body = 97 ∷ 0 ∷ [];
  tx_queue = [];
  watches = [];
}

abbrev pub world : World ℕ
world = record { xs = record { st = Store.init; wmgr = WatchMgr.init EventMgr.init }; dmgr = [] }

init-IsSound : IsSound world.xs.st.db
init-IsSound = IsSound-nil

abbrev path_of : ℕ → Text
path_of n = codes "/d/a"

abbrev no_domain : ℕ → ℕ → ℕ → Option ℕ
no_domain domid port mfn = none

-- The destructor of a domain with one watch.
abbrev unwatched : ℕ → Xenstore → Xenstore
unwatched d x = lixs.Xenstore.watch_del path_of d x

handle_rx-Answers_example :
    (q : Proto) × (s' : World ℕ) × (handle_rx wire path_of 1 no_domain unwatched
        (some 1)
        request
        world
      ≡ some (q, s'))
    × Answers xs_rm request q
unfolding lixs.XsProto.Ops.ends_itself
handle_rx-Answers_example =
    handle_rx-Answers wire path_of 1 no_domain unwatched (some 1) request world init-IsSound refl

-- An answer that is longer than the largest payload.
abbrev long : Message
long = record {
  type = xs_read;
  req_id = 5;
  tx_id = 0;
  body = codes "123456789" ∷ [];
  terminator = false;
}

abbrev queued : Proto
queued = record request { tx_queue = long ∷ [] }

abbrev blank : Wire
blank = record { hdr = record { type = 0; req_id = 0; tx_id = 0; len = 0 }; body = [] }

e2big_told : length (err2str wire e2big) ≤ 8
unfolding find_err same_err
e2big_told = omega arith

long_fits : length (joined wire long.body) < 2 ^ 32
unfolding joined
long_fits = omega arith

prepare_tx-Fits_example :
    (tx : Wire) × (prepare_tx wire queued blank ≡ some (record queued { tx_queue = [] }, tx))
    × Fits wire tx
prepare_tx-Fits_example =
    prepare_tx-Fits wire (omega arith) long [] queued blank refl long_fits e2big_told

abbrev pub zeros : ℕ → Text
zeros zero = []
zeros (suc n) = 0 ∷ zeros n

-- A message of the type 1 with a body of two bytes, which has arrived on a ring.
abbrev pub fresh : Proto
fresh = record request { rx_body = zeros 41 }

abbrev pub waiting : Rx
waiting = record { state = at_start; hdr = []; off = 0; bytes = 0 }

pub fresh-IsRx : IsRx wire waiting fresh
unfolding lixs.XsProto.Rx.body_size lixs.XsProto.Rx.Bounds.Within
fresh-IsRx = record { memory = refl; path = omega arith; within = omega arith }

pub few_enough : 3 * avail eight filled + 6 ≤ 30
unfolding avail pending stream drop
few_enough = omega arith

-- The requests of a client of domain 1, over the ring.
abbrev pub read : ℕ → World ℕ × RingConn → Given (World ℕ × RingConn)
read = read_with (read_from eight true)

abbrev pub handle : Proto → World ℕ × RingConn → Option (Proto × (World ℕ × RingConn))
handle = requests wire path_of 1 no_domain unwatched (some 1)

pub read-Source :
    Source (2 ^ 32 - 1) (λ (s : World ℕ × RingConn). avail eight s.1) (λ s. Shared eight s.1) read
read-Source =
    read_with-Source (2 ^ 32 - 1) (avail eight) (Shared eight) (read_from eight true)
      (ring-Source eight eight-IsRing true)

pub handle-Handler :
    Handler (λ (s : World ℕ × RingConn). avail eight s.1) (λ s. Shared eight s.1) handle
handle-Handler =
    requests-Handler wire path_of 1 no_domain unwatched (some 1) (avail eight) (Shared eight)

process_rx-IsRx_example :
    (t : Turn (World ℕ × RingConn)) × (process_rx wire read handle 30 waiting fresh (world, filled)
      ≡ some t)
    × Ended wire read handle
        (2 ^ 32 - 1)
        (λ (s : World ℕ × RingConn). avail eight s.1)
        (λ s. Shared eight s.1)
        read-Source
        handle-Handler
        (omega arith)
        (omega arith)
        (omega arith)
        (omega arith)
        t
process_rx-IsRx_example =
    process_rx-IsRx wire read handle (2 ^ 32 - 1) (λ (s : World ℕ × RingConn). avail eight s.1)
      (λ s. Shared eight s.1) read-Source handle-Handler (omega arith) (omega arith) (omega arith)
      (omega arith) 30 waiting fresh (world, filled) fresh-IsRx filled-Shared few_enough

-- The message joins the byte that waits on the ring.
abbrev idle : Tx
idle = record { state = at_start; wire = blank; buff = []; bytes = 0 }

queued-Small : Small wire queued.tx_queue
unfolding Small
queued-Small = (long_fits, tt)

idle-Ready : Ready (2 ^ 32 - 1) at_start idle
unfolding Ready
idle-Ready = omega arith

owed-process_tx_example :
    (tx' : Tx) × (p' : Proto) × (c' : RingConn) × (process_tx wire
        (write_to eight true)
        7
        idle
        queued
        filled
      ≡ some (tx', p', c'))
    × (waits eight c' ++ owed wire tx' p' ≡ waits eight filled ++ owed wire idle queued)
    × Ready (2 ^ 32 - 1) tx'.state tx'
    × Small wire p'.tx_queue
    × Sending eight c'
owed-process_tx_example =
    owed-process_tx wire (write_to eight true) (2 ^ 32 - 1) (Sending eight) (waits eight)
      (ring-Sink eight eight-IsRing true) (omega arith) e2big_told (omega arith) (omega arith)
      (λ h. omega arith) 7 idle queued filled idle-Ready queued-Small shared-IsSending (omega arith)

watch_cb-get_path_example :
    watch_cb request
      (record { addr = 1; relative = not (is_absolute request) })
      (codes "t")
      (get_path request)
    ≡ some (record request {
      tx_queue =
          []
          ++ (record {
            type = xs_watch_event;
            req_id = 0;
            tx_id = 0;
            body = get_arg1 request ∷ codes "t" ∷ [];
            terminator = true;
          })
            ∷ [];
    })
watch_cb-get_path_example = watch_cb-get_path request request 1 (codes "t") refl

abbrev reader : Permission
reader = record { cid = 407; read = true; write = false }

str2perm-perm2str_example : str2perm (perm2str reader) ≡ some reader
str2perm-perm2str_example = str2perm-perm2str reader (omega arith)

reader_text : perm2str reader ≡ codes "r407"
unfolding perm2str lixs.Base.Decimal.to_string lixs.Base.Decimal.digits
reader_text = refl

-- A header that announces forty bytes, where the memory has thirty-four.
abbrev rude : XsWire
rude = record wire {
  payload_max = 1;
  decode_hdr = λ t. record { type = 1; req_id = 0; tx_id = 0; len = 40 };
}

abbrev arrived : ℕ → Text → Given Text
arrived n s = record { done = true; chunk = take n s; bytes = 0; next = drop n s }

body_overflow :
    process_rx rude arrived (λ p s. some (p, s)) 5 waiting request (zeros 50)
    ≡ some (overflow (record { type = 1; req_id = 0; tx_id = 0; len = 40 }))
unfolding process_rx lixs.XsProto.Rx.turn lixs.XsProto.Rx.body_size take drop
body_overflow = refl
