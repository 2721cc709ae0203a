-- ===== src/XsProto/Rx/Tape.antt =====
-- What a connection has given and what was handled, and what has come of the message in flight.
use lixs.Base.{ℕ, ◌+◌, ◌≤◌, ◌≡◌, Option, some, List, [], ◌∷◌, ◌++◌}
use lixs.Base.Text.{Text, length, take}
use lixs.XsProto.{XsWire, Hdr, Proto}
use lixs.XsProto.Rx.{IoState, at_start, at_hdr, at_body, Rx, Given}
use lixs.XsProto.Rx.Frames.{Frames}

-- The header and the body of the message in the memory.
abbrev pub message_in : Proto → Hdr × Text
message_in p = (p.rx_hdr, take p.rx_hdr.len p.rx_body)

-- `taken` are the bytes that a connection has given, and `log` the messages that were handled.
pub record Records {S : Type 0} (taken : S → Text) (log : S → List (Hdr × Text))
    (read : ℕ → S → Given S) (handle : Proto → S → Option (Proto × S)) : Type 0 where
  pub gives : (n : ℕ) (s : S) → taken (read n s).next ≡ taken s ++ (read n s).chunk
  pub handles_none : (n : ℕ) (s : S) → log (read n s).next ≡ log s
  pub takes_none : (p q : Proto) (s s' : S) → handle p s ≡ some (q, s') → taken s' ≡ taken s
  pub handles :
      (p q : Proto) (s s' : S) → handle p s ≡ some (q, s') → log s' ≡ log s ++ message_in p ∷ []

-- What has come of the message in flight.
unfoldable pub partial : IoState → Rx → Proto → Text
partial at_start rx p = []
partial at_hdr rx p = rx.hdr
partial at_body rx p = rx.hdr ++ take rx.off p.rx_body

unfoldable pub Begun : XsWire → IoState → Rx → Proto → Type 0
Begun w at_start rx p = rx.off ≤ rx.off
Begun w at_hdr rx p = length rx.hdr + rx.bytes ≡ w.hdr_size
Begun w at_body rx p = (length rx.hdr ≡ w.hdr_size) × (w.decode_hdr rx.hdr ≡ p.rx_hdr)

-- The bytes that were taken are those of the messages that were handled, and of what has come of the
-- next one.
pub record Delivered (w : XsWire) (rx : Rx) (p : Proto) (taken : Text) (log : List (Hdr × Text))
    : Type 0 where
  pub bytes : Text
  pub frames : Frames w bytes log
  pub all : taken ≡ bytes ++ partial rx.state rx p
  pub begun : Begun w rx.state rx p
