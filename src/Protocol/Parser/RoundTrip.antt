-- ===== src/Protocol/Parser/RoundTrip.antt =====
-- The parser reads back framed messages, and reports nothing that was not framed.
use minipg.Base.{
  ℕ, zero, suc, ℤ, pos, negsuc, ◌+◌, ◌-◌, ◌*◌, ◌%◌, ◌/◌, ◌<◌, ◌≡◌, refl, sym, ap, subst, ◌∙◌,
  Option, none, some, List, [], ◌∷◌, ◌++◌, append_assoc, arith, length, length-append, length-take,
  All, le→ltb, lt→ltb, take-append_length, drop-append_length, take-append-drop, of_word,
}
use minipg.Buffer.{Bytes, word32, int32_be}
use minipg.Protocol.Result.{Result, ok, err}
use minipg.Protocol.Messages.{msg, i32}
use minipg.Protocol.Parser.{
  RawMessage, Parser, Scan, scanned, failed, out_of_fuel, prepend, push, new_parser, returned,
}
use minipg.Protocol.Parser.Front.{front, next_body, scan}
use minipg.Protocol.Parser.Chunks.{
  rounds, scan-err, scan-none, scan-some, observe, push_all, concat, parser_of, push-scan,
}
use minipg.Protocol.Parser.Division.{push_all-push, IsSettled}

-- A message on the wire: its type, the length of the body and of the length word, the body.
abbrev pub wire : RawMessage → Bytes
wire m = m.type ∷ (word32 (length m.body + 4) ++ m.body)

abbrev pub IsWire : RawMessage → Type 0
IsWire m = length m.body + 4 < 2147483648

abbrev pub wires : List RawMessage → Bytes
wires [] = []
wires (m ∷ ms) = wire m ++ wires ms

abbrev length_word : ℕ → ℕ
length_word n =
    n / 16777216 % 256 * 16777216 + n / 65536 % 256 * 65536 + n / 256 % 256 * 256 + n % 256

length_word_lem : (n : ℕ) → n < 2147483648 → length_word n ≡ n
length_word_lem n h = omega arith

next_body-wire :
    (m : RawMessage) (rest : Bytes)
    → next_body m.type (pos (length m.body + 4)) (m.body ++ rest) ≡ ok (some (m, rest))
unfolding next_body
next_body-wire m rest = rw (
  le→ltb (length m.body + 4) 4 (omega arith),
  four (length m.body),
  le→ltb (length (m.body ++ rest)) (length m.body) (omega (arith, length-append m.body rest)),
  take-append_length m.body rest,
  drop-append_length m.body rest,
)
  where
    four : (n : ℕ) → n + 4 - 4 ≡ n
    four n = omega arith

front-wire :
    (m : RawMessage) (rest : Bytes) → IsWire m → front (wire m ++ rest) ≡ ok (some (m, rest))
unfolding front
front-wire m rest h =
    rw (length_word_lem (length m.body + 4) h, lt→ltb (length m.body + 4) 2147483648 h)
      (next_body-wire m rest)

scan-wires :
    (f : ℕ) (ms : List RawMessage) (tail : Bytes)
    → All IsWire ms
    → front tail ≡ ok none
    → length (wires ms ++ tail) < f
    → scan f (wires ms ++ tail) ≡ scanned ms tail
scan-wires zero ms tail h settled k = absurd (omega arith)
scan-wires (suc f) [] tail h settled k = scan-none f tail settled
scan-wires (suc f) (m ∷ ms) tail (hm, hms) settled k =
    ap (scan (suc f)) (append_assoc (wire m) (wires ms) tail)
    ∙ scan-some f (wire m ++ (wires ms ++ tail)) (front-wire m (wires ms ++ tail) hm)
    ∙ ap (prepend (m ∷ [])) (scan-wires f ms tail hms settled shorter)
  where
    shorter : length (wires ms ++ tail) < f
    shorter = omega (
      arith,
      k,
      ap length (append_assoc (wire m) (wires ms) tail),
      length-append m.body (wires ms ++ tail),
    )

-- Messages on the wire, cut into any chunks and followed by the beginning of another one, come out
-- of the parser one by one; the beginning stays in its buffer.
pub push_all-wires :
    (cs : List Bytes) (ms : List RawMessage) (tail : Bytes)
    → All IsWire ms
    → IsSettled (record { buf = tail })
    → concat cs ≡ wires ms ++ tail
    → push_all new_parser cs ≡ scanned ms (record { buf = tail })
push_all-wires cs ms tail h settled e =
    push_all-push new_parser cs empty-IsSettled
    ∙ push-scan new_parser (concat cs)
    ∙ ap (λ bs. parser_of (scan (rounds bs) bs)) e
    ∙ ap parser_of (scan-wires (rounds (wires ms ++ tail)) ms tail h settled (omega arith))
  where
    empty-IsSettled : IsSettled new_parser
    empty-IsSettled = unfold front in refl

abbrev IsByte : ℕ → Type 0
IsByte b = b < 256

-- The four bytes of a length word are those of the number that they stand for.
word32_bytes :
    (a b c d : ℕ)
    → a < 256
    → b < 256
    → c < 256
    → d < 256
    → word32 (a * 16777216 + b * 65536 + c * 256 + d) ≡ a ∷ b ∷ c ∷ d ∷ []
word32_bytes a b c d ha hb hc hd = ground arith

of_word_pos : (half u n : ℕ) → of_word half u ≡ pos n → u ≡ n
of_word_pos half u n e = ground arith

-- What the loop takes for a message is the wire form of it.
next_body_sound :
    (t : ℕ) (len : ℤ) (bs : Bytes) {m : RawMessage} {rest : Bytes}
    → next_body t len bs ≡ ok (some (m, rest))
    → (m.type ≡ t) × (len ≡ pos (length m.body + 4)) × (bs ≡ m.body ++ rest)
unfolding next_body
next_body_sound t (negsuc n) bs e = cc
next_body_sound t (pos len) bs {m} {rest} e =
    ground (arith, length-take (len - 4) bs, take-append-drop (len - 4) bs)

front_sound :
    (bs : Bytes) {m : RawMessage} {rest : Bytes}
    → All IsByte bs
    → front bs ≡ ok (some (m, rest))
    → bs ≡ wire m ++ rest
unfolding front
front_sound (t ∷ a ∷ b ∷ c ∷ d ∷ bs) {m} {rest} h e =
    let u : ℕ = a * 16777216 + b * 65536 + c * 256 + d in
    let (mt, ml, mb) = next_body_sound t (of_word 2147483648 u) bs e in
    let counted : length m.body + 4 ≡ u = sym (of_word_pos 2147483648 u (length m.body + 4) ml) in
    let word : word32 (length m.body + 4) ≡ a ∷ b ∷ c ∷ d ∷ [] =
      ap word32 counted ∙ word32_bytes a b c d h.1.0 h.1.1.0 h.1.1.1.0 h.1.1.1.1.0 in
    sym (ap (λ ws. m.type ∷ (ws ++ (m.body ++ rest))) word ∙ cc)
front_sound [] h e = cc
front_sound (t ∷ []) h e = cc
front_sound (t ∷ a ∷ []) h e = cc
front_sound (t ∷ a ∷ b ∷ []) h e = cc
front_sound (t ∷ a ∷ b ∷ c ∷ []) h e = cc

All-append_right {ℓ κ} :
    {A : Type ℓ} (P : A → Type κ) (xs ys : List A) → All P (xs ++ ys) → All P ys
All-append_right P [] ys h = h
All-append_right P (x ∷ xs) ys h = All-append_right P xs ys h.1

abbrev IsSound : Bytes → Scan Bytes → Type 0
IsSound bs (scanned ms rest) = bs ≡ wires ms ++ rest
IsSound bs (failed e) = Unit {0}
IsSound bs out_of_fuel = Unit {0}

IsSound-prepend :
    (bs : Bytes) (m : RawMessage) (rest : Bytes) (s : Scan Bytes)
    → bs ≡ wire m ++ rest
    → IsSound rest s
    → IsSound bs (prepend (m ∷ []) s)
IsSound-prepend bs m rest (scanned ms left) e h =
    e ∙ ap (λ r. wire m ++ r) h ∙ sym (append_assoc (wire m) (wires ms) left)
IsSound-prepend bs m rest (failed x) e h = tt
IsSound-prepend bs m rest out_of_fuel e h = tt

scan-IsSound : (f : ℕ) (bs : Bytes) → All IsByte bs → IsSound bs (scan f bs)
scan-IsSound zero bs h = unfold scan in tt
scan-IsSound (suc f) bs h = go (front bs) refl (scan-IsSound f)
  where
    go :
        (r : Result (Option (RawMessage × Bytes)))
        → front bs ≡ r
        → ((cs : Bytes) → All IsByte cs → IsSound cs (scan f cs))
        → IsSound bs (scan (suc f) bs)
    go (err x) e later = subst (IsSound bs) (sym (scan-err f bs e)) tt
    go (ok none) e later = subst (IsSound bs) (sym (scan-none f bs e)) refl
    go (ok (some (m, rest))) e later =
        let split = front_sound bs h e in
        subst (IsSound bs) (sym (scan-some f bs e)) (
          IsSound-prepend bs m rest (scan f rest) split
            (later rest (All-append_right IsByte (wire m) rest (subst (All IsByte) split h))))

-- Whatever `push` returns accounts for every byte: the buffer and the chunk are the messages on the
-- wire, then what the parser keeps.
pub push_conserves :
    (p : Parser) (chunk : Bytes) {ms : List RawMessage} {q : Parser}
    → All IsByte (p.buf ++ chunk)
    → push p chunk ≡ returned ms q
    → p.buf ++ chunk ≡ wires ms ++ q.buf
push_conserves p chunk {ms} {q} h e =
    go (scan (rounds bs) bs) (scan-IsSound (rounds bs) bs h)
      (sym (push-scan p chunk) ∙ ap observe e)
  where
    bs : Bytes
    bs = p.buf ++ chunk

    go : (s : Scan Bytes) → IsSound bs s → parser_of s ≡ scanned ms q → bs ≡ wires ms ++ q.buf
    go (scanned ns rest) sound e' =
        let left : Parser = record { buf = rest } in
        let same_messages : ns ≡ ms = cc in
        let same_parser : left ≡ q = cc in
        sound ∙ ap (λ l. wires l ++ rest) same_messages ∙ ap (λ r. wires ms ++ r.buf) same_parser
    go (failed x) sound e' = cc
    go out_of_fuel sound e' = cc

-- What `msg` frames is what the parser reads as a message.
pub msg-wire :
    (t : ℕ) (payload bs : Bytes)
    → msg t payload ≡ ok bs
    → IsWire (record { type = t; body = payload })
      × (bs ≡ wire (record { type = t; body = payload }))
unfolding msg i32 int32_be
msg-wire t payload bs e = ground arith
