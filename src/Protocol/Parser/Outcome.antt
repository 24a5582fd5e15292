-- ===== src/Protocol/Parser/Outcome.antt =====
-- How a push ends: where the bytes that came in are cut into messages, and what is left of them.
use minipg.Base.{
  ℕ, zero, suc, ℤ, pos, negsuc, ◌+◌, ◌-◌, ◌*◌, of_word, ◌<◌, ◌≤◌, ◌≡◌, refl, sym, subst, Option,
  none, some, List, [], ◌∷◌, ◌++◌, arith, length, take, drop, ltb, if-split, ltb→lt, ltb→le,
}
use minipg.Buffer.{Bytes}
use minipg.Protocol.Result.{Error, Result, ok, err, invalid_message_length}
use minipg.Protocol.Parser.{
  RawMessage, Parser, Scan, scanned, failed, out_of_fuel, prepend, Pushed, returned, threw, hangs,
  push, scan_from, finish,
}
use minipg.Protocol.Parser.Front.{next_body, front, scan}
use minipg.Protocol.Parser.Chunks.{
  front_shrinks, rounds, scan-err, scan-none, scan-some, observe, parser_of, push-scan,
}

-- The length word behind the type byte, as a signed number of 32 bits.
abbrev length_word : (a b c d : ℕ) → ℤ
length_word a b c d = of_word 2147483648 (a * 16777216 + b * 65536 + c * 256 + d)

-- A length that does not even count the length word itself.
abbrev TooShort : ℤ → Type 0
TooShort (negsuc n) = Unit {0}
TooShort (pos n) = n < 4

-- The bytes begin with a length word that no message has, and the error names it.
pub data Malformed : Bytes → Error → Type 0 where
  malformed :
      (t a b c d : ℕ) (rest : Bytes)
      → TooShort (length_word a b c d)
      → Malformed (t ∷ a ∷ b ∷ c ∷ d ∷ rest) (invalid_message_length (length_word a b c d))

-- The bytes begin with a message that is not complete: its head is missing, or the end of its body.
pub data Waits : Bytes → Type 0 where
  no_head : {bs : Bytes} → length bs < 5 → Waits bs
  no_body :
      (t a b c d len : ℕ) (rest : Bytes)
      → length_word a b c d ≡ pos len
      → 4 ≤ len
      → length rest < len - 4
      → Waits (t ∷ a ∷ b ∷ c ∷ d ∷ rest)

-- The first bytes are these whole messages, and the last bytes are what is left behind them.
pub data Behind : Bytes → List RawMessage → Bytes → Type 0 where
  here : (bs : Bytes) → Behind bs [] bs
  there :
      (t a b c d len : ℕ) (rest : Bytes) {ms : List RawMessage} {left : Bytes}
      → length_word a b c d ≡ pos len
      → 4 ≤ len
      → len - 4 ≤ length rest
      → Behind (drop (len - 4) rest) ms left
      → Behind
          (t ∷ a ∷ b ∷ c ∷ d ∷ rest)
          (record { type = t; body = take (len - 4) rest } ∷ ms)
          left

abbrev Seen : Bytes → Result (Option (RawMessage × Bytes)) → Type 0
Seen bs (err e) = Malformed bs e
Seen bs (ok none) = Waits bs
Seen bs (ok (some (m, rest))) =
    (ms : List RawMessage) (left : Bytes) → Behind rest ms left → Behind bs (m ∷ ms) left

next_body-Seen :
    (t a b c d : ℕ) (rest : Bytes) (z : ℤ)
    → length_word a b c d ≡ z
    → Seen (t ∷ a ∷ b ∷ c ∷ d ∷ rest) (next_body t z rest)
unfolding next_body
next_body-Seen t a b c d rest (negsuc n) e =
    subst (λ z. Malformed (t ∷ a ∷ b ∷ c ∷ d ∷ rest) (invalid_message_length z)) e
      (malformed t a b c d rest (subst TooShort (sym e) tt))
next_body-Seen t a b c d rest (pos len) e =
    if-split (Seen (t ∷ a ∷ b ∷ c ∷ d ∷ rest)) (ltb len 4)
      (λ l.
        subst (λ z. Malformed (t ∷ a ∷ b ∷ c ∷ d ∷ rest) (invalid_message_length z)) e
          (malformed t a b c d rest (subst TooShort (sym e) (ltb→lt len 4 l))))
      (λ l.
        if-split (Seen (t ∷ a ∷ b ∷ c ∷ d ∷ rest)) (ltb (length rest) (len - 4))
          (λ m. no_body t a b c d len rest e (ltb→le len 4 l) (ltb→lt (length rest) (len - 4) m))
          (λ m ms left k.
            there t a b c d len rest e (ltb→le len 4 l) (ltb→le (length rest) (len - 4) m) k))

front-Seen : (bs : Bytes) → Seen bs (front bs)
unfolding front
front-Seen [] = no_head (omega arith)
front-Seen (t ∷ []) = no_head (omega arith)
front-Seen (t ∷ a ∷ []) = no_head (omega arith)
front-Seen (t ∷ a ∷ b ∷ []) = no_head (omega arith)
front-Seen (t ∷ a ∷ b ∷ c ∷ []) = no_head (omega arith)
front-Seen (t ∷ a ∷ b ∷ c ∷ d ∷ rest) = next_body-Seen t a b c d rest (length_word a b c d) refl

abbrev Stops : Bytes → Scan Bytes → Type 0
Stops bs (scanned ms left) = Behind bs ms left × Waits left
Stops bs (failed e) =
    (ms : List RawMessage) × ((left : Bytes) × (Behind bs ms left × Malformed left e))
Stops bs out_of_fuel = ⊥

Stops-prepend :
    (m : RawMessage) (bs rest : Bytes) (s : Scan Bytes)
    → ((ms : List RawMessage) (left : Bytes) → Behind rest ms left → Behind bs (m ∷ ms) left)
    → Stops rest s
    → Stops bs (prepend (m ∷ []) s)
Stops-prepend m bs rest (scanned ns left) k (b, w) = (k ns left b, w)
Stops-prepend m bs rest (failed e) k (ms, (left, (b, x))) = (m ∷ ms, (left, (k ms left b, x)))
Stops-prepend m bs rest out_of_fuel k s = s

scan-Stops : (f : ℕ) (bs : Bytes) → length bs < f → Stops bs (scan f bs)
scan-Stops zero bs h = absurd (omega arith)
scan-Stops (suc f) bs h = go (front bs) refl (scan-Stops f)
  where
    go :
        (r : Result (Option (RawMessage × Bytes)))
        → front bs ≡ r
        → ((cs : Bytes) → length cs < f → Stops cs (scan f cs))
        → Stops bs (scan (suc f) bs)
    go (err x) e later =
        subst (Stops bs) (sym (scan-err f bs e))
          ([], (bs, (here bs, subst (Seen bs) e (front-Seen bs))))
    go (ok none) e later =
        subst (Stops bs) (sym (scan-none f bs e)) (here bs, subst (Seen bs) e (front-Seen bs))
    go (ok (some (m, rest))) e later = subst (Stops bs) (sym (scan-some f bs e)) (
        Stops-prepend m bs rest (scan f rest) (subst (Seen bs) e (front-Seen bs))
          (later rest (omega (arith, h, front_shrinks bs e))))

-- What `push` makes of all bytes that the parser then has.
abbrev pub EndsWell : Bytes → Pushed → Type 0
EndsWell bs (returned ms q) = Behind bs ms q.buf × Waits q.buf
EndsWell bs (threw e q) =
    (q.buf ≡ bs)
    × ((ms : List RawMessage) × ((left : Bytes) × (Behind bs ms left × Malformed left e)))
EndsWell bs hangs = ⊥

abbrev Keeps : Bytes → Pushed → Type 0
Keeps bs (returned ms q) = Unit {0}
Keeps bs (threw e q) = q.buf ≡ bs
Keeps bs hangs = Unit {0}

push-Keeps : (p : Parser) (chunk : Bytes) → Keeps (p.buf ++ chunk) (push p chunk)
unfolding push
push-Keeps p chunk = go (scan_from (suc (length (p.buf ++ chunk))) (p.buf ++ chunk) 0)
  where
    go : (s : Scan ℕ) → Keeps (p.buf ++ chunk) (finish (p.buf ++ chunk) s)
    go (scanned out off) = tt
    go (failed e) = refl
    go out_of_fuel = tt

Stops-observe :
    (bs : Bytes) (o : Pushed) (s : Scan Bytes)
    → observe o ≡ parser_of s
    → Stops bs s
    → Keeps bs o
    → EndsWell bs o
Stops-observe bs (returned ms q) (scanned ns left) e h k =
    let left_parser : Parser = record { buf = left } in
    let same_messages : ns ≡ ms = cc in
    let same : left_parser ≡ q = cc in
    subst (λ (r : Parser). Behind bs ms r.buf × Waits r.buf) same
      (subst (λ l. Behind bs l left × Waits left) same_messages h)
Stops-observe bs (threw x q) (failed y) e (ms, (left, (b, m))) k =
    let same : x ≡ y = cc in (k, (ms, (left, (b, subst (Malformed left) (sym same) m))))
Stops-observe bs o out_of_fuel e h k = absurd h
Stops-observe bs (returned ms q) (failed y) e h k = cc
Stops-observe bs (threw x q) (scanned ns left) e h k = cc
Stops-observe bs hangs (scanned ns left) e h k = cc
Stops-observe bs hangs (failed y) e h k = cc

-- `push` always ends, and the bytes that the parser then has decide how. It returns the whole messages
-- at their front, up to the first that is not complete, and keeps the rest; or where a length word
-- below 4 comes before that, it throws an error that names the length, and keeps all bytes.
pub push-EndsWell : (p : Parser) (chunk : Bytes) → EndsWell (p.buf ++ chunk) (push p chunk)
push-EndsWell p chunk =
    Stops-observe bs (push p chunk) (scan (rounds bs) bs) (push-scan p chunk)
      (scan-Stops (rounds bs) bs (omega arith)) (push-Keeps p chunk)
  where
    bs : Bytes
    bs = p.buf ++ chunk
