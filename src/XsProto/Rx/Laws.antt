-- ===== src/XsProto/Rx/Laws.antt =====
-- What `process_rx` relies on, of a connection and of the handling of a message.
use lixs.Base.{ℕ, ◌+◌, ◌≤◌, ◌≡◌, true, Option, some}
use lixs.Base.Text.{length}
use lixs.XsProto.{Proto}
use lixs.XsProto.Rx.{Given}

-- A connection, of which `avail` bytes have arrived, counts what it gives, for requests of at most
-- `most` bytes. `Good` is an invariant of it.
pub record Source {S : Type 0} (most : ℕ) (avail : S → ℕ) (Good : S → Type 0)
    (read : ℕ → S → Given S) : Type 0 where
  pub takes :
      (n : ℕ) (s : S)
      → Good s
      → n ≤ most
      → avail (read n s).next + length (read n s).chunk ≤ avail s
  pub counts : (n : ℕ) (s : S) → Good s → n ≤ most → length (read n s).chunk + (read n s).bytes ≡ n
  pub gives :
      (n : ℕ) (s : S) → Good s → n ≤ most → (read n s).done ≡ true → length (read n s).chunk ≡ n
  pub good : (n : ℕ) (s : S) → Good s → n ≤ most → Good (read n s).next

-- Where a message is handled to its end, it is only read.
pub record Handled {S : Type 0} (avail : S → ℕ) (Good : S → Type 0) (p q : Proto) (s s' : S)
    : Type 0 where
  pub body : q.rx_body ≡ p.rx_body
  pub dom_path : q.dom_path ≡ p.dom_path
  pub avails : avail s' ≤ avail s
  pub good : Good s'

pub record Handler {S : Type 0} (avail : S → ℕ) (Good : S → Type 0)
    (handle : Proto → S → Option (Proto × S)) : Type 0 where
  pub handles :
      (p q : Proto) (s s' : S) → Good s → handle p s ≡ some (q, s') → Handled avail Good p q s s'
