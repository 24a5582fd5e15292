-- ===== src/Protocol/Parser/Chunks.antt =====
-- How the socket's bytes are cut into chunks makes no difference to the parser.
use minipg.Base.{
  ℕ, zero, suc, ℤ, pos, negsuc, ◌-◌, ◌≤◌, ◌<◌, ◌≡◌, refl, sym, ap, ◌∙◌, Option, none, some, List,
  [], ◌∷◌, ◌++◌, append_assoc, arith, length, ltb, ◌==◌, length-append, length-drop, take-append_le,
  drop-append_le, ltb→le, le→ltb, Bool-cases, inl, inr, drop_all,
}
use minipg.Buffer.{Bytes}
use minipg.Protocol.Result.{Error, Result, ok, err}
use minipg.Protocol.Parser.{
  RawMessage, Parser, Scan, scanned, failed, out_of_fuel, prepend, scan_from, Pushed, returned,
  threw, hangs, finish, push,
}
use minipg.Protocol.Parser.Front.{front, next_body, scan, to_rest, scan_from-scan}

-- A message at the front leaves fewer bytes, by five at least.
next_body_shrinks :
    (t : ℕ) (len : ℤ) (bs : Bytes) {m : RawMessage} {rest : Bytes}
    → next_body t len bs ≡ ok (some (m, rest))
    → length rest ≤ length bs
unfolding next_body
next_body_shrinks t (pos len) bs e = ground (arith, length-drop (len - 4) bs)
next_body_shrinks t (negsuc n) bs e = cc

pub front_shrinks :
    (bs : Bytes) {m : RawMessage} {rest : Bytes}
    → front bs ≡ ok (some (m, rest))
    → length rest < length bs
unfolding front
front_shrinks (t ∷ a ∷ b ∷ c ∷ d ∷ bs) e = omega (arith, next_body_shrinks t _ bs e)
front_shrinks [] e = cc
front_shrinks (t ∷ []) e = cc
front_shrinks (t ∷ a ∷ []) e = cc
front_shrinks (t ∷ a ∷ b ∷ []) e = cc
front_shrinks (t ∷ a ∷ b ∷ c ∷ []) e = cc

-- What more input does to one round's result: nothing, unless the round was waiting for it.
abbrev KeepsFront : Bytes → Bytes → Result (Option (RawMessage × Bytes)) → Type 0
KeepsFront bs more (err e) = front (bs ++ more) ≡ err e
KeepsFront bs more (ok none) = Unit {0}
KeepsFront bs more (ok (some (m, rest))) = front (bs ++ more) ≡ ok (some (m, rest ++ more))

abbrev KeepsBody : ℕ → ℤ → Bytes → Bytes → Result (Option (RawMessage × Bytes)) → Type 0
KeepsBody t len bs more (err e) = next_body t len (bs ++ more) ≡ err e
KeepsBody t len bs more (ok none) = Unit {0}
KeepsBody t len bs more (ok (some (m, rest))) =
    next_body t len (bs ++ more) ≡ ok (some (m, rest ++ more))

next_body-append :
    (t : ℕ) (len : ℤ) (bs more : Bytes) → KeepsBody t len bs more (next_body t len bs)
unfolding next_body
next_body-append t (negsuc n) bs more = refl
next_body-append t (pos len) bs more = elim (Bool-cases (ltb len 4)) [
  | inl e ↦ rw e (rw e)
  | inr e ↦ elim (Bool-cases (ltb (length bs) (len - 4))) [
    | inl short ↦ rw (e, short) tt
    | inr long ↦
        let fits : len - 4 ≤ length bs = ltb→le _ _ long in
        rw (e, long)
          (rw (
            e,
            le→ltb (length (bs ++ more)) (len - 4) (omega (arith, fits, length-append bs more)),
            take-append_le (len - 4) bs more fits,
            drop-append_le (len - 4) bs more fits,
          ))
  ]
]

front-append : (bs more : Bytes) → KeepsFront bs more (front bs)
unfolding front
front-append (t ∷ a ∷ b ∷ c ∷ d ∷ bs) more = next_body-append t _ bs more
front-append [] more = tt
front-append (t ∷ []) more = tt
front-append (t ∷ a ∷ []) more = tt
front-append (t ∷ a ∷ b ∷ []) more = tt
front-append (t ∷ a ∷ b ∷ c ∷ []) more = tt

prepend-nil {ℓ} : {P : Type ℓ} (s : Scan P) → prepend [] s ≡ s
prepend-nil (scanned ms p) = refl
prepend-nil (failed e) = refl
prepend-nil out_of_fuel = refl

prepend-append {ℓ} :
    {P : Type ℓ} (ms ns : List RawMessage) (s : Scan P)
    → prepend (ms ++ ns) s ≡ prepend ms (prepend ns s)
prepend-append ms ns (scanned os p) = ap (λ l. scanned l p) (append_assoc ms ns os)
prepend-append ms ns (failed e) = refl
prepend-append ms ns out_of_fuel = refl

-- The rounds that any input needs.
abbrev pub rounds : Bytes → ℕ
rounds bs = suc (length bs)

-- The loop over `bs` carried on with more input.
abbrev pub resume : Scan Bytes → Bytes → Scan Bytes
resume (scanned ms rest) more = prepend ms (scan (rounds (rest ++ more)) (rest ++ more))
resume (failed e) more = failed e
resume out_of_fuel more = out_of_fuel

resume-prepend :
    (m : RawMessage) (s : Scan Bytes) (more : Bytes)
    → resume (prepend (m ∷ []) s) more ≡ prepend (m ∷ []) (resume s more)
resume-prepend m (scanned ms rest) more = prepend-append (m ∷ []) ms _
resume-prepend m (failed e) more = refl
resume-prepend m out_of_fuel more = refl

-- One round of the loop over the result of `front`.
pub scan-err :
    (fuel : ℕ) (bs : Bytes) {e : Error} → front bs ≡ err e → scan (suc fuel) bs ≡ failed e
unfolding scan
scan-err fuel bs e = rw (e, scan)

pub scan-none : (fuel : ℕ) (bs : Bytes) → front bs ≡ ok none → scan (suc fuel) bs ≡ scanned [] bs
unfolding scan
scan-none fuel bs e = rw (e, scan)

pub scan-some :
    (fuel : ℕ) (bs : Bytes) {m : RawMessage} {rest : Bytes}
    → front bs ≡ ok (some (m, rest))
    → scan (suc fuel) bs ≡ prepend (m ∷ []) (scan fuel rest)
unfolding scan
scan-some fuel bs e = rw (e, scan)

-- Rounds beyond those needed change nothing.
scan_fuel : (f g : ℕ) (bs : Bytes) → length bs < f → length bs < g → scan f bs ≡ scan g bs
scan_fuel zero g bs h k = absurd (omega arith)
scan_fuel (suc f) zero bs h k = absurd (omega arith)
scan_fuel (suc f) (suc g) bs h k = go (front bs) refl (scan_fuel f g)
  where
    go :
        (r : Result (Option (RawMessage × Bytes)))
        → front bs ≡ r
        → ((cs : Bytes) → length cs < f → length cs < g → scan f cs ≡ scan g cs)
        → scan (suc f) bs ≡ scan (suc g) bs
    go (err x) e later = scan-err f bs e ∙ sym (scan-err g bs e)
    go (ok none) e later = scan-none f bs e ∙ sym (scan-none g bs e)
    go (ok (some (m, rest))) e later =
        scan-some f bs e
        ∙ ap (prepend (m ∷ []))
            (later rest (omega (arith, front_shrinks bs e)) (omega (arith, front_shrinks bs e)))
        ∙ sym (scan-some g bs e)

-- The loop over more input is the loop over the first part, carried on.
pub scan-append :
    (f g : ℕ) (bs more : Bytes)
    → length bs < f
    → length (bs ++ more) < g
    → scan g (bs ++ more) ≡ resume (scan f bs) more
scan-append zero g bs more h k = absurd (omega arith)
scan-append (suc f) zero bs more h k = absurd (omega arith)
scan-append (suc f) (suc g) bs more h k =
    go (front bs) refl (front-append bs more) (scan-append f g)
  where
    go :
        (r : Result (Option (RawMessage × Bytes)))
        → front bs ≡ r
        → KeepsFront bs more r
        → ((cs ds : Bytes)
            → length cs < f
            → length (cs ++ ds) < g
            → scan g (cs ++ ds) ≡ resume (scan f cs) ds)
        → scan (suc g) (bs ++ more) ≡ resume (scan (suc f) bs) more
    go (err x) e keeps later = scan-err g _ keeps ∙ sym (ap (λ s. resume s more) (scan-err f bs e))
    go (ok none) e keeps later =
        scan_fuel (suc g) (rounds (bs ++ more)) (bs ++ more) k (omega arith)
        ∙ sym (prepend-nil _)
        ∙ sym (ap (λ s. resume s more) (scan-none f bs e))
    go (ok (some (m, rest))) e keeps later =
        scan-some g _ keeps
        ∙ ap (prepend (m ∷ [])) (
            later rest more (omega (arith, front_shrinks bs e))
              (omega (arith, front_shrinks bs e, length-append bs more, length-append rest more)))
        ∙ sym (resume-prepend m (scan f rest) more)
        ∙ sym (ap (λ s. resume s more) (scan-some f bs e))

-- What a caller sees of a push, and of a row of pushes: messages and the parser left, or an error.
-- After an error the connection drops the parser.
abbrev pub observe : Pushed → Scan Parser
observe (returned ms q) = scanned ms q
observe (threw e q) = failed e
observe hangs = out_of_fuel

unfoldable pub push_all : Parser → List Bytes → Scan Parser
push_all p [] = scanned [] p
push_all p (c ∷ cs) = elim (push p c) [
  | returned ms q ↦ prepend ms (push_all q cs)
  | threw e q ↦ failed e
  | hangs ↦ out_of_fuel
]

abbrev pub concat : List Bytes → Bytes
concat [] = []
concat (c ∷ cs) = c ++ concat cs

abbrev pub parser_of : Scan Bytes → Scan Parser
parser_of (scanned ms rest) = scanned ms (record { buf = rest })
parser_of (failed e) = failed e
parser_of out_of_fuel = out_of_fuel

observe-finish : (buf : Bytes) (s : Scan ℕ) → observe (finish buf s) ≡ parser_of (to_rest buf s)
observe-finish buf (scanned ms off) = elim (Bool-cases (off == length buf)) [
  | inl e ↦ rw e (ap (λ b. scanned ms (record { buf = b })) (sym (drop_all off buf (ground arith))))
  | inr e ↦ rw e
]
observe-finish buf (failed e) = refl
observe-finish buf out_of_fuel = refl

pub push-scan :
    (p : Parser) (chunk : Bytes)
    → observe (push p chunk) ≡ parser_of (scan (rounds (p.buf ++ chunk)) (p.buf ++ chunk))
unfolding push
push-scan p chunk =
    observe-finish (p.buf ++ chunk) (scan_from (rounds (p.buf ++ chunk)) (p.buf ++ chunk) 0)
    ∙ ap parser_of (scan_from-scan (rounds (p.buf ++ chunk)) (p.buf ++ chunk) 0 (omega arith))
