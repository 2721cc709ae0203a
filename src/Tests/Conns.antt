-- ===== src/Tests/Conns.antt =====
-- Connections at small inputs.
use lixs.Base.{◌+◌, ◌%◌, ◌≤◌, ◌≡◌, true, false, some, [], ◌∷◌, ◌++◌, refl, arith}
use lixs.Base.{◌&&◌, ◌==◌}
use lixs.RingConn.{write}
use lixs.Base.Text.{take, length}
use native.Mathlib.Decide.{ℕ_discrete}
use lixs.Base.Map
use lixs.Epoll
use lixs.Epoll.Mirror
use lixs.EventMgr
use lixs.Base.{ℕ, List, some, ◌++◌}
use lixs.Conn.{Link}
use lixs.Conn.Once.{IsOnce, deaths, removals}
use lixs.RingConn.{XsRing, Interface, RingConn, read, callback}
use lixs.RingConn.Chunk.{IsRing}
use lixs.RingConn.Stream.{IsShared, pending}
use lixs.RingConn.Read.{read-Fetched}
use lixs.RingConn.Write.{IsSending, unsent}
use lixs.RingConn.Queued.{Drains, write-Queued}
use lixs.RingConn.Done.{alone, unread, read-done}
use lixs.RingConn.Once.{reads, needs_rx, run, callback-IsOnce}
use lixs.RingConn.Source.{Shared}
use lixs.SockConn.{moves, closed, called}
use lixs.SockConn.Once
use lixs.SockConn.Once.{called-IsOnce}

abbrev pub eight : XsRing
eight = record { size = 8; mask = λ i. i % 8 }

pub eight-IsRing : IsRing eight
eight-IsRing = record { turns = 536870912; divides = refl; small = omega arith; mask = λ i. refl }

-- Four bytes are pending, two before the end of the ring and two behind it.
abbrev pub shared : Interface
shared = record {
  req = 7 ∷ 8 ∷ 0 ∷ 0 ∷ 0 ∷ 0 ∷ 1 ∷ 2 ∷ [];
  rsp = 0 ∷ 0 ∷ 0 ∷ 0 ∷ 0 ∷ 0 ∷ 0 ∷ 0 ∷ [];
  req_cons = 4294967294;
  req_prod = 2;
  rsp_cons = 6;
  rsp_prod = 7;
}

abbrev link : Link
link = record { ev_read = true; ev_write = false; alive = true; actions = [] }

abbrev pub filled : RingConn
filled = record { link = link; shared = shared }

filled-IsShared : IsShared eight shared
filled-IsShared = record { whole = refl; cons = omega arith; prod = omega arith }

pub filled-Shared : Shared eight filled
unfolding Shared
filled-Shared = filled-IsShared

-- The domain does nothing while the four bytes are read.
read-Fetched_example :
    let o = read eight (λ i. i) true 4 filled in
    (pending eight shared ++ [] ≡ o.chunk ++ pending eight o.conn.shared)
    × (length o.chunk + o.bytes ≡ 4)
    × (o.done ≡ (o.conn.link.alive && o.bytes == 0))
read-Fetched_example =
    read-Fetched eight eight-IsRing (λ i. i) (λ i. []) (alone eight) true 4 filled refl
      filled-IsShared (omega arith)

four_unread : (4 ≤ unread shared) × (unread shared ≤ 8)
unfolding unread
four_unread = (omega arith, omega arith)

read-done_example :
    let o = read eight (λ i. i) true 4 filled in (o.done ≡ true) × (length o.chunk ≡ 4)
read-done_example =
    read-done eight eight-IsRing 4 filled refl filled-IsShared (omega arith) four_unread.0
      four_unread.1

link-IsOnce : IsOnce link
unfolding deaths removals
link-IsOnce = record { dead = refl; removed = refl }

-- Reading two bytes, the notification fails.
callback-IsOnce_example :
    (c' : RingConn) × (callback
        (run eight (reads (λ i. i) false 2 ∷ needs_rx ∷ []))
        (run eight [])
        true
        true
        true
        true
        false
        (some filled)
      ≡ some c')
    × IsOnce c'.link
callback-IsOnce_example =
    callback-IsOnce eight (reads (λ i. i) false 2 ∷ needs_rx ∷ []) [] true true true true false
      filled link-IsOnce

-- Three bytes come of five, and then the peer has closed.
called-IsOnce_example : IsOnce (
    called
      (Once.run (Once.reads (moves 2) 5 ∷ Once.reads closed 2 ∷ []))
      (Once.run [])
      true
      true
      false
      link)
called-IsOnce_example =
    called-IsOnce (Once.reads (moves 2) 5 ∷ Once.reads closed 2 ∷ []) [] true true false link
      link-IsOnce

pub shared-IsSending : IsSending eight shared
shared-IsSending = record {
  whole = refl;
  cons = omega arith;
  prod = omega arith;
  sane = omega arith;
}

-- A domain that takes nothing meanwhile.
idle-Drains : Drains eight (λ i. i) (λ i. [])
unfolding Drains
idle-Drains i s = (s, refl)

-- One byte waits, and three are written, the last two of them behind the end of the ring.
write-Queued_example :
    let o = write eight (λ i. i) true (1 ∷ 2 ∷ 3 ∷ []) 3 filled in
    (unsent eight shared ++ o.chunk ≡ [] ++ unsent eight o.conn.shared)
    × (o.chunk ≡ take (length o.chunk) (1 ∷ 2 ∷ 3 ∷ []))
    × (length o.chunk + o.bytes ≡ 3)
    × (o.done ≡ (o.conn.link.alive && o.bytes == 0))
write-Queued_example =
    write-Queued eight eight-IsRing (λ i. i) (λ i. []) idle-Drains true (1 ∷ 2 ∷ 3 ∷ []) 3 filled
      refl shared-IsSending (omega arith) (omega arith)

-- Descriptor 5 is watched with callback 50, and 6 comes and goes.
abbrev connections : List (Mirror.Call ℕ)
connections =
    Mirror.adds 5 true false 50
    ∷ Mirror.adds 6 true false 60
    ∷ Mirror.sets 5 true true
    ∷ Mirror.rems 6
    ∷ []

abbrev multiplexer : Epoll.Epoll ℕ
multiplexer = Mirror.run connections (Epoll.epoll EventMgr.init).0

abbrev readable : Epoll.Ready
readable = record { fd = 5; read = true; write = false; error = false }

readable-Watched : Mirror.Watched (readable ∷ []) multiplexer
unfolding Mirror.Watched Mirror.interest Mirror.run Epoll.epoll Epoll.add Epoll.set Epoll.rem
    Map.find Map.put Map.erase ℕ_discrete
readable-Watched = (refl, tt)

handle-Mirrors_example :
    Epoll.handle (readable ∷ []) multiplexer EventMgr.init
    ≡ some (record EventMgr.init {
      events = [] ++ Mirror.due (readable ∷ []) multiplexer ++ Epoll.handles ∷ [];
    })
handle-Mirrors_example =
    Mirror.handle-Mirrors EventMgr.init EventMgr.init connections (readable ∷ []) readable-Watched
