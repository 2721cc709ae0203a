-- ===== src/XsProto/Rx/Recorded.antt =====
-- inc/lixs/xs_proto_v1/xs_proto.hh, `process_rx`: a connection and a handling of messages with a
-- record of the bytes that were given and of the messages that were handled.
use mathlib.Core.Path.{subst}
use lixs.Base.{ℕ, ◌≡◌, refl, Option, none, some, List, [], ◌∷◌, ◌++◌}
use lixs.Base.Text.{Text}
use lixs.XsProto.{Hdr, Proto}
use lixs.XsProto.Rx.{Given}
use lixs.XsProto.Rx.Laws.{Source, Handler}
use lixs.XsProto.Rx.Tape.{message_in, Records}

abbrev pub Recorded : Type 0 → Type 0
Recorded S = S × Text × List (Hdr × Text)

abbrev pub taken_of : {S : Type 0} → Recorded S → Text
taken_of s = s.1

abbrev pub log_of : {S : Type 0} → Recorded S → List (Hdr × Text)
log_of s = s.2

module _ {S : Type 0} where
  abbrev pub read_recorded : (ℕ → S → Given S) → ℕ → Recorded S → Given (Recorded S)
  read_recorded read n (s, taken, log) =
      let o = read n s in
      record {
        done = o.done;
        chunk = o.chunk;
        bytes = o.bytes;
        next = (o.next, taken ++ o.chunk, log);
      }

  abbrev noted : Proto → Text → List (Hdr × Text) → Option (Proto × S) → Option (Proto × Recorded S)
  noted p taken log none = none
  noted p taken log (some (q, s)) = some (q, (s, taken, log ++ message_in p ∷ []))

  abbrev pub handle_recorded :
      (Proto → S → Option (Proto × S)) → Proto → Recorded S → Option (Proto × Recorded S)
  handle_recorded handle p (s, taken, log) = noted p taken log (handle p s)

  -- What the handling leaves, with the record.
  abbrev Noted :
      Proto → Text → List (Hdr × Text) → Option (Proto × S) → Option (Proto × Recorded S) → Type 0
  Noted p taken log r none = Unit {0}
  Noted p taken log r (some (q, (s, taken', log'))) =
      (r ≡ some (q, s)) × (taken' ≡ taken) × (log' ≡ log ++ message_in p ∷ [])

  noted-Noted :
      (p : Proto) (taken : Text) (log : List (Hdr × Text)) (r : Option (Proto × S))
      → Noted p taken log r (noted p taken log r)
  noted-Noted p taken log none = tt
  noted-Noted p taken log (some (q, s)) = (refl, refl, refl)

  handle_recorded-Noted :
      (handle : Proto → S → Option (Proto × S)) (p q : Proto) (s s' : Recorded S)
      → handle_recorded handle p s ≡ some (q, s')
      → (handle p s.0 ≡ some (q, s'.0)) × (s'.1 ≡ s.1) × (s'.2 ≡ s.2 ++ message_in p ∷ [])
  handle_recorded-Noted handle p q s s' e =
      subst (Noted p s.1 s.2 (handle p s.0)) e (noted-Noted p s.1 s.2 (handle p s.0))

  pub read_recorded-Source :
      (most : ℕ) (avail : S → ℕ) (Good : S → Type 0) (read : ℕ → S → Given S)
      → Source most avail Good read
      → Source most (λ (s : Recorded S). avail s.0) (λ s. Good s.0) (read_recorded read)
  read_recorded-Source most avail Good read src = record {
    takes = λ n s good le. src.takes n s.0 good le;
    counts = λ n s good le. src.counts n s.0 good le;
    gives = λ n s good le done. src.gives n s.0 good le done;
    good = λ n s good le. src.good n s.0 good le;
  }

  pub handle_recorded-Handler :
      (avail : S → ℕ) (Good : S → Type 0) (handle : Proto → S → Option (Proto × S))
      → Handler avail Good handle
      → Handler (λ (s : Recorded S). avail s.0) (λ s. Good s.0) (handle_recorded handle)
  handle_recorded-Handler avail Good handle hdl = record {
    handles = λ p q s s' good e.
        (let h = hdl.handles p q s.0 s'.0 good (handle_recorded-Noted handle p q s s' e).0 in
          record { body = h.body; dom_path = h.dom_path; avails = h.avails; good = h.good });
  }

  pub recorded-Records :
      (read : ℕ → S → Given S) (handle : Proto → S → Option (Proto × S))
      → Records taken_of log_of (read_recorded read) (handle_recorded handle)
  recorded-Records read handle = record {
    gives = λ n s. refl;
    handles_none = λ n s. refl;
    takes_none = λ p q s s' e. (handle_recorded-Noted handle p q s s' e).1;
    handles = λ p q s s' e. (handle_recorded-Noted handle p q s s' e).2;
  }
