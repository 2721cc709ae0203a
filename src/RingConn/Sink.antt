-- ===== src/RingConn/Sink.antt =====
-- A connection over rings fills the interface that the protocol sends messages through.
use mathlib.Core.List.{append-nil}
use lixs.Base.{ℕ, ◌-◌, ◌^◌, ◌≤◌, ◌≡◌, ◌==◌, ◌&&◌, Bool, true, [], refl, sym, if_kept, arith}
use lixs.Base.Text.{Text, length, take}
use lixs.RingConn.{XsRing, RingConn, Outcome, write_chunks, want_write, notified, write}
use lixs.RingConn.Chunk.{IsRing}
use lixs.RingConn.Write.{IsSending, unsent}
use lixs.RingConn.Queued.{Drains, write_chunks-Queued}
use lixs.XsProto.Tx.{Sent}
use lixs.XsProto.Tx.Laws.{Sends, Sink}

abbrev sent_of : Outcome → Sent RingConn
sent_of o = record { done = o.done; chunk = o.chunk; bytes = o.bytes; next = o.conn }

-- The connection's `write` as the protocol calls it, while the domain takes nothing; `sent` says
-- whether its notifications succeed.
unfoldable pub write_to : XsRing → Bool → Text → ℕ → RingConn → Sent RingConn
write_to x sent buff n c = sent_of (write x (λ i. i) sent buff n c)

-- What waits on the ring for the domain.
abbrev pub waits : XsRing → RingConn → Text
waits x c = unsent x c.shared

abbrev pub Sending : XsRing → RingConn → Type 0
Sending x c = IsSending x c.shared

idle : (x : XsRing) → Drains x (λ i. i) (λ i. [])
unfolding Drains
idle x i s = (s, refl)

none_left : (alive : Bool) (n : ℕ) → (alive && n == 0) ≡ true → n ≡ 0
none_left alive n e = ground (arith, e)

module _ (x : XsRing) (r : IsRing x) where
  write-Sends :
      (sent : Bool) (buff : Text) (n : ℕ) (c : RingConn)
      → Sending x c
      → n ≤ 2 ^ 32 - 1
      → n ≤ length buff
      → Sends (Sending x) (waits x) buff n c (sent_of (write x (λ i. i) sent buff n c))
  unfolding write take
  write-Sends sent buff n c s small given =
      let m = write_chunks x (λ i. i) buff n c.shared in
      let q =
        write_chunks-Queued x r (λ i. i) (λ i. []) (idle x) buff n c.shared s (omega arith) given in
      let link = notified m.notify sent (want_write m.bytes c.link) in
      if_kept (λ o. Sends (Sending x) (waits x) buff n c (sent_of o)) c.link.alive _ _
        (λ live. record {
          puts = sym q.back;
          front = q.front;
          count = q.count;
          ends = λ done. none_left link.alive m.bytes done;
          good = q.sending;
        })
        (λ gone. record {
          puts = sym (append-nil (waits x c));
          front = refl;
          count = omega arith;
          ends = λ done. absurd (ground (arith, done));
          good = s;
        })

  -- The ring as what messages are sent through.
  pub ring-Sink : (sent : Bool) → Sink (2 ^ 32 - 1) (Sending x) (waits x) (write_to x sent)
  unfolding write_to
  ring-Sink sent = record {
    sends = λ buff n c s small given. write-Sends sent buff n c s small given;
  }
