-- ===== src/XsProto/Rx/Frames.antt =====
-- What a run of bytes says, as messages one after the other, and a parser of the whole run.
use mathlib.Core.List.{append_assoc}
use lixs.Base.{
  ℕ, zero, suc, ◌+◌, ◌≤◌, ◌≡◌, ◌∙◌, List, [], ◌∷◌, ◌++◌, refl, sym, ap, ltb, if_false, false,
  if◌then◌else◌, arith,
}
use lixs.Base.Memory.{take_front, drop_front}
use lixs.Base.Text.{Text, length, length-++, take, drop}
use lixs.XsProto.{XsWire, Hdr}
use lixs.XsProto.Rx.{}

-- A run of bytes that consists of messages: the header, from which the length of the body is read, and
-- the body.
pub data Frames (w : XsWire) : Text → List (Hdr × Text) → Type 0 where
  no_message : Frames w [] []
  one_more :
      {bytes : Text} {msgs : List (Hdr × Text)} (hdr body : Text)
      → Frames w bytes msgs
      → length hdr ≡ w.hdr_size
      → length body ≡ (w.decode_hdr hdr).len
      → Frames w (bytes ++ (hdr ++ body)) (msgs ++ (w.decode_hdr hdr, body) ∷ [])

-- The messages at the front of a run of bytes, at most as many as the fuel.
unfoldable pub parse : XsWire → ℕ → Text → List (Hdr × Text)
parse w zero t = []
parse w (suc n) t =
    let hdr = w.decode_hdr (take w.hdr_size t) in
    let rest = parse w n (drop (w.hdr_size + hdr.len) t) in
    if ltb (length t) w.hdr_size
    then []
    else if ltb (length t) (w.hdr_size + hdr.len)
    then []
    else (hdr, take hdr.len (drop w.hdr_size t)) ∷ rest

zero_add : (n : ℕ) → 0 + n ≡ n
zero_add n = omega arith

counted : (a b n : ℕ) → a ≡ b + 1 → a + n ≡ b + suc n
counted a b n e = omega arith

not_ltb : (a b : ℕ) → b ≤ a → ltb a b ≡ false
not_ltb a b le = ground arith

parse_step :
    (w : XsWire) (n : ℕ) (t hdr body more : Text)
    → take w.hdr_size t ≡ hdr
    → w.hdr_size + (w.decode_hdr hdr).len ≤ length t
    → take (w.decode_hdr hdr).len (drop w.hdr_size t) ≡ body
    → drop (w.hdr_size + (w.decode_hdr hdr).len) t ≡ more
    → parse w (suc n) t ≡ (w.decode_hdr hdr, body) ∷ parse w n more
unfolding parse
parse_step w n t hdr body more e long f g = rw e (
    if_false _ _ (not_ltb (length t) w.hdr_size (omega arith))
    ∙ if_false _ _ (not_ltb (length t) (w.hdr_size + (w.decode_hdr hdr).len) long)
    ∙ rw (f, g) refl)

parse_one :
    (w : XsWire) (n : ℕ) (hdr body more : Text)
    → length hdr ≡ w.hdr_size
    → length body ≡ (w.decode_hdr hdr).len
    → parse w (suc n) ((hdr ++ body) ++ more) ≡ (w.decode_hdr hdr, body) ∷ parse w n more
parse_one w n hdr body more e f =
    let split = append_assoc hdr body more in
    let sizes = length-++ hdr body in
    let both = length-++ (hdr ++ body) more in
    parse_step w n ((hdr ++ body) ++ more) hdr body more
      (ap (take w.hdr_size) split ∙ take_front hdr (body ++ more) w.hdr_size e) (omega arith)
      (ap (λ t. take (w.decode_hdr hdr).len (drop w.hdr_size t)) split
        ∙ ap (take (w.decode_hdr hdr).len) (drop_front hdr (body ++ more) w.hdr_size e)
        ∙ take_front body more (w.decode_hdr hdr).len f)
      (drop_front (hdr ++ body) more (w.hdr_size + (w.decode_hdr hdr).len) (omega arith))

pub parse-Frames :
    (w : XsWire) {t : Text} {msgs : List (Hdr × Text)}
    → Frames w t msgs
    → (n : ℕ) (more : Text) → parse w (length msgs + n) (t ++ more) ≡ msgs ++ parse w n more
parse-Frames w no_message n more = ap (λ k. parse w k more) (zero_add n)
parse-Frames w (one_more {bytes = t} {msgs = msgs} hdr body frames e f) n more =
    let m : Hdr × Text = (w.decode_hdr hdr, body) in
    let count = length-++ msgs (m ∷ []) in
    ap (λ t. parse w (length (msgs ++ m ∷ []) + n) t) (append_assoc t (hdr ++ body) more)
    ∙ ap (λ k. parse w k (t ++ ((hdr ++ body) ++ more)))
        (counted (length (msgs ++ m ∷ [])) (length msgs) n count)
    ∙ parse-Frames w frames (suc n) ((hdr ++ body) ++ more)
    ∙ ap (λ l. msgs ++ l) (parse_one w n hdr body more e f)
    ∙ sym (append_assoc msgs (m ∷ []) (parse w n more))
