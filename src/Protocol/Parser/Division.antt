-- ===== src/Protocol/Parser/Division.antt =====
-- Any division of a byte stream into chunks gives the same messages.
use minipg.Base.{
  ℕ, zero, suc, ◌<◌, ◌≡◌, refl, sym, ap, subst, ◌∙◌, Option, none, some, List, [], ◌∷◌, ◌++◌,
  append_assoc, append-nil, arith, length,
}
use minipg.Buffer.{Bytes}
use minipg.Protocol.Result.{Result, ok, err}
use minipg.Protocol.Parser.{
  RawMessage, Parser, Scan, scanned, failed, out_of_fuel, prepend, Pushed, returned, threw, hangs,
  push,
}
use minipg.Protocol.Parser.Front.{front, scan}
use minipg.Protocol.Parser.Chunks.{
  front_shrinks, rounds, resume, scan-err, scan-none, scan-some, scan-append, observe, push_all,
  concat, parser_of, push-scan,
}

-- The parser holds no complete message and no malformed one.
abbrev pub IsSettled : Parser → Type 0
IsSettled p = front p.buf ≡ ok none

abbrev Settles : Scan Bytes → Type 0
Settles (scanned ms rest) = front rest ≡ ok none
Settles (failed e) = Unit {0}
Settles out_of_fuel = ⊥

Settles-prepend : (ms : List RawMessage) (s : Scan Bytes) → Settles s → Settles (prepend ms s)
Settles-prepend ms (scanned ns rest) h = h
Settles-prepend ms (failed e) h = tt
Settles-prepend ms out_of_fuel h = h

-- With enough rounds the loop ends, and stops where no complete message is left.
pub scan-Settles : (f : ℕ) (bs : Bytes) → length bs < f → Settles (scan f bs)
scan-Settles zero bs h = absurd (omega arith)
scan-Settles (suc f) bs h = go (front bs) refl (scan-Settles f)
  where
    go :
        (r : Result (Option (RawMessage × Bytes)))
        → front bs ≡ r
        → ((cs : Bytes) → length cs < f → Settles (scan f cs))
        → Settles (scan (suc f) bs)
    go (err x) e later = subst Settles (sym (scan-err f bs e)) tt
    go (ok none) e later = subst Settles (sym (scan-none f bs e)) e
    go (ok (some (m, rest))) e later =
        subst Settles (sym (scan-some f bs e))
          (Settles-prepend (m ∷ []) (scan f rest) (later rest (omega (arith, front_shrinks bs e))))

-- The value of `push_all` after the first push.
abbrev follow : Pushed → List Bytes → Scan Parser
follow (returned ms q) cs = prepend ms (push_all q cs)
follow (threw e q) cs = failed e
follow hangs cs = out_of_fuel

push_all-cons :
    (p : Parser) (c : Bytes) (cs : List Bytes) → push_all p (c ∷ cs) ≡ follow (push p c) cs
unfolding push_all
push_all-cons p c cs = go (push p c) refl
  where
    go : (o : Pushed) → push p c ≡ o → push_all p (c ∷ cs) ≡ follow (push p c) cs
    go (returned ms q) e = rw (e, push_all)
    go (threw x q) e = rw (e, push_all)
    go hangs e = rw (e, push_all)

parser_of-prepend :
    (ms : List RawMessage) (s : Scan Bytes) → parser_of (prepend ms s) ≡ prepend ms (parser_of s)
parser_of-prepend ms (scanned ns rest) = refl
parser_of-prepend ms (failed e) = refl
parser_of-prepend ms out_of_fuel = refl

follow-observe :
    (o : Pushed) (s : Scan Bytes) (cs : List Bytes)
    → observe o ≡ parser_of s
    → Settles s
    → ((q : Parser)
        → IsSettled q
        → push_all q cs ≡ parser_of (scan (rounds (q.buf ++ concat cs)) (q.buf ++ concat cs)))
    → follow o cs ≡ parser_of (resume s (concat cs))
follow-observe (returned ms q) (scanned ns rest) cs e settles later =
    let left : Parser = record { buf = rest } in
    let same_messages : ms ≡ ns = cc in
    let same_parser : q ≡ left = cc in
    ap (λ l. prepend l (push_all q cs)) same_messages
    ∙ ap (prepend ns) (ap (λ r. push_all r cs) same_parser ∙ later left settles)
    ∙ sym (parser_of-prepend ns _)
follow-observe (threw x q) (failed y) cs e settles later = cc
follow-observe o out_of_fuel cs e settles later = absurd settles
follow-observe (returned ms q) (failed y) cs e settles later = cc
follow-observe (threw x q) (scanned ns rest) cs e settles later = cc
follow-observe hangs (scanned ns rest) cs e settles later = cc
follow-observe hangs (failed y) cs e settles later = cc

push_all-scan :
    (p : Parser) (cs : List Bytes)
    → IsSettled p
    → push_all p cs ≡ parser_of (scan (rounds (p.buf ++ concat cs)) (p.buf ++ concat cs))
unfolding push_all
push_all-scan p [] h = rw append-nil (sym (ap parser_of (scan-none (length p.buf) p.buf h)))
push_all-scan p (c ∷ cs) h =
    push_all-cons p c cs
    ∙ follow-observe (push p c) (scan (rounds (p.buf ++ c)) (p.buf ++ c)) cs (push-scan p c)
        (scan-Settles (rounds (p.buf ++ c)) (p.buf ++ c) (omega arith))
        (λ q hq. push_all-scan q cs hq)
    ∙ ap parser_of (
        sym (
          scan-append (rounds (p.buf ++ c)) (rounds ((p.buf ++ c) ++ concat cs)) (p.buf ++ c)
            (concat cs) (omega arith) (omega arith)))
    ∙ ap (λ b. parser_of (scan (rounds b) b)) (append_assoc p.buf c (concat cs))

-- However a stream is cut into chunks, pushing them one by one gives the messages, the parser and
-- the error that one push of the whole stream gives.
pub push_all-push :
    (p : Parser) (cs : List Bytes) → IsSettled p → push_all p cs ≡ observe (push p (concat cs))
push_all-push p cs h = push_all-scan p cs h ∙ sym (push-scan p (concat cs))
