-- ===== src/XsProto/Tx/Laws.antt =====
-- What `process_tx` relies on, of a connection and of what is in flight.
use lixs.Base.{ℕ, ◌+◌, ◌^◌, ◌≤◌, ◌<◌, ◌≡◌, true, List, [], ◌∷◌, ◌++◌}
use lixs.Base.Text.{Text, length, take}
use lixs.XsProto.{XsWire, Message}
use lixs.XsProto.Body.{joined}
use lixs.XsProto.Rx.{IoState, at_start, at_hdr, at_body}
use lixs.XsProto.Tx.{Tx, Sent}

-- A call has written the front of `buff`, and counts it. `out` is what was written so far.
pub record Sends {S : Type 0} (Good : S → Type 0) (out : S → Text) (buff : Text) (n : ℕ) (s : S)
    (o : Sent S) : Type 0 where
  pub puts : out o.next ≡ out s ++ o.chunk
  pub front : o.chunk ≡ take (length o.chunk) buff
  pub count : length o.chunk + o.bytes ≡ n
  pub ends : o.done ≡ true → o.bytes ≡ 0
  pub good : Good o.next

-- A connection, for at most `most` bytes that the buffer holds. `Good` is an invariant of it.
pub record Sink {S : Type 0} (most : ℕ) (Good : S → Type 0) (out : S → Text)
    (write : Text → ℕ → S → Sent S) : Type 0 where
  pub sends :
      (buff : Text) (n : ℕ) (s : S)
      → Good s
      → n ≤ most
      → n ≤ length buff
      → Sends Good out buff n s (write buff n s)

-- The buffers hold what is to be sent of them.
unfoldable pub Ready : ℕ → IoState → Tx → Type 0
Ready most at_start tx = tx.bytes ≤ tx.bytes
Ready most at_hdr tx =
    (tx.bytes ≤ most)
    × (tx.bytes ≤ length tx.buff)
    × (tx.wire.hdr.len ≤ most)
    × (tx.wire.hdr.len ≤ length tx.wire.body)
Ready most at_body tx = (tx.bytes ≤ most) × (tx.bytes ≤ length tx.buff)

-- The elements of each message, with a null character behind each, have less than 2 ^ 32 bytes.
unfoldable pub Small : XsWire → List Message → Type 0
Small w [] = Unit {0}
Small w (msg ∷ msgs) = (length (joined w msg.body) < 2 ^ 32) × Small w msgs
