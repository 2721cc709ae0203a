-- ===== src/Tests/Delivery.antt =====
-- A message that arrives on a ring, with a record of what was given and handled.
use lixs.Base.{ℕ, ◌-◌, ◌^◌, ◌≡◌, refl, some, [], arith}
use lixs.RingConn.{RingConn}
use lixs.RingConn.Source.{avail, Shared}
use lixs.Tests.Conns.{eight, filled, filled-Shared}
use lixs.Tests.Proto.{
  wire, fresh, waiting, fresh-IsRx, few_enough, world, read, handle, read-Source, handle-Handler,
}
use lixs.XsProto.Ops.{World}
use lixs.XsProto.Rx.{Turn, process_rx}
use lixs.XsProto.Rx.Laws.{Source, Handler}
use lixs.XsProto.Rx.Frames.{no_message}
use lixs.XsProto.Rx.Recorded.{
  Recorded, taken_of, log_of, read_recorded, handle_recorded, read_recorded-Source,
  handle_recorded-Handler, recorded-Records,
}
use lixs.XsProto.Rx.Tape.{partial, Begun, Delivered}
use lixs.XsProto.Rx.Delivered.{Parsed, process_rx-Delivered}

abbrev State : Type 0
State = Recorded (World ℕ × RingConn)

abbrev left : State → ℕ
left s = avail eight s.0.1

abbrev Good : State → Type 0
Good s = Shared eight s.0.1

source : Source (2 ^ 32 - 1) left Good (read_recorded read)
source =
    read_recorded-Source (2 ^ 32 - 1) (λ s. avail eight s.1) (λ s. Shared eight s.1) read
      read-Source

handler : Handler left Good (handle_recorded handle)
handler =
    handle_recorded-Handler (λ s. avail eight s.1) (λ s. Shared eight s.1) handle handle-Handler

abbrev begin : State
begin = ((world, filled), [], [])

start-Delivered : Delivered wire waiting fresh [] []
unfolding partial Begun
start-Delivered = record { bytes = []; frames = no_message; all = refl; begun = omega arith }

process_rx-Delivered_example :
    (t : Turn State) × (process_rx wire
        (read_recorded read)
        (handle_recorded handle)
        30
        waiting
        fresh
        begin
      ≡ some t)
    × Parsed wire
        (read_recorded read)
        (handle_recorded handle)
        (2 ^ 32 - 1)
        left
        Good
        source
        handler
        (omega arith)
        (omega arith)
        (omega arith)
        (omega arith)
        taken_of
        log_of
        (recorded-Records read handle)
        5
        t
process_rx-Delivered_example =
    process_rx-Delivered wire (read_recorded read) (handle_recorded handle) (2 ^ 32 - 1) left Good
      source handler (omega arith) (omega arith) (omega arith) (omega arith) taken_of log_of
      (recorded-Records read handle) 30 5 waiting fresh begin fresh-IsRx filled-Shared
      start-Delivered few_enough
