-- ===== src/RingConn/Source.antt =====
-- A connection over rings fills the interface that the protocol reads messages through.
use mathlib.Core.List.{append-nil}
use lixs.Base.{ℕ, ◌+◌, ◌-◌, ◌^◌, ◌≤◌, ◌≡◌, ◌∙◌, Bool, true, [], sym, ap, if_kept, arith}
use lixs.Base.Text.{length, length-++}
use lixs.RingConn.{XsRing, RingConn, Outcome, read_chunks, want_read, notified, read}
use lixs.RingConn.Chunk.{IsRing}
use lixs.RingConn.Stream.{IsShared, pending}
use lixs.RingConn.Read.{read_chunks-Fetched, all_given}
use lixs.RingConn.Done.{alone}
use lixs.XsProto.Rx.{Given}
use lixs.XsProto.Rx.Laws.{Source}

abbrev given : Outcome → Given RingConn
given o = record { done = o.done; chunk = o.chunk; bytes = o.bytes; next = o.conn }

-- The connection's `read` as the protocol calls it; `sent` says whether its notifications succeed.
unfoldable pub read_from : XsRing → Bool → ℕ → RingConn → Given RingConn
read_from x sent n c = given (read x (λ i. i) sent n c)

unfoldable pub avail : XsRing → RingConn → ℕ
avail x c = length (pending x c.shared)

unfoldable pub Shared : XsRing → RingConn → Type 0
Shared x c = IsShared x c.shared

module _ (x : XsRing) (r : IsRing x) where
  record Gives (n : ℕ) (c : RingConn) (o : Outcome) : Type 0 where
    pub takes : avail x o.conn + length o.chunk ≤ avail x c
    pub counts : length o.chunk + o.bytes ≡ n
    pub gives : o.done ≡ true → length o.chunk ≡ n
    pub good : Shared x o.conn

  read-Gives :
      (sent : Bool) (n : ℕ) (c : RingConn)
      → Shared x c
      → n ≤ 2 ^ 32 - 1
      → Gives n c (read x (λ i. i) sent n c)
  unfolding read avail Shared
  read-Gives sent n c s small =
      let m = read_chunks x (λ i. i) n c.shared in
      let f = read_chunks-Fetched x r (λ i. i) (λ i. []) (alone x) n c.shared s (omega arith) in
      let link = notified m.notify sent (want_read m.bytes c.link) in
      let total = ap length (sym (append-nil (pending x c.shared)) ∙ f.front) in
      let right = length-++ m.chunk (pending x m.shared) in
      if_kept (Gives n c) c.link.alive _ _
        (λ live. record {
          takes = omega arith;
          counts = f.count;
          gives = λ done. all_given link.alive m.bytes done f.count;
          good = f.shared;
        })
        (λ gone. record { takes = omega arith; counts = omega arith; gives = λ done. cc; good = s })

  -- The ring as the source of messages.
  pub ring-Source : (sent : Bool) → Source (2 ^ 32 - 1) (avail x) (Shared x) (read_from x sent)
  unfolding read_from
  ring-Source sent = record {
    takes = λ n c s few. (read-Gives sent n c s few).takes;
    counts = λ n c s few. (read-Gives sent n c s few).counts;
    gives = λ n c s few. (read-Gives sent n c s few).gives;
    good = λ n c s few. (read-Gives sent n c s few).good;
  }
