-- ===== src/Protocol/Parser/Front.antt =====
-- The parser's loop seen from the bytes that are left, and its termination.
use minipg.Base.{
  ℕ, zero, suc, ℤ, pos, negsuc, ◌+◌, ◌-◌, ◌*◌, of_word, ◌≤◌, ◌≡◌, refl, sym, ap, ◌∙◌, Option, none,
  some, List, [], ◌∷◌, arith, length, take, drop, ltb, if◌then◌else◌, length-drop, le→ltb,
  get_elem?-drop, drop-drop,
}
use minipg.Buffer.{Bytes, read_int32}
use minipg.Protocol.Result.{Result, ok, err, invalid_message_length}
use minipg.Protocol.Parser.{
  RawMessage, complete, frame_at, Scan, scanned, failed, out_of_fuel, prepend, scan_from,
}

-- What one message at the front of the input looks like: a type byte, a length word that counts
-- itself and the body, the body.
unfoldable pub next_body : ℕ → ℤ → Bytes → Result (Option (RawMessage × Bytes))
next_body type (negsuc n) rest = err (invalid_message_length (negsuc n))
next_body type (pos len) rest =
    if ltb len 4
    then err (invalid_message_length (pos len))
    else if ltb (length rest) (len - 4)
    then ok none
    else ok (some (record { type = type; body = take (len - 4) rest }, drop (len - 4) rest))

unfoldable pub front : Bytes → Result (Option (RawMessage × Bytes))
front (type ∷ a ∷ b ∷ c ∷ d ∷ rest) =
    next_body type (of_word 2147483648 (a * 16777216 + b * 65536 + c * 256 + d)) rest
front _ = ok none

abbrev at_rest : Bytes → Result (Option (RawMessage × ℕ)) → Result (Option (RawMessage × Bytes))
at_rest bs (err e) = err e
at_rest bs (ok none) = ok none
at_rest bs (ok (some (m, total))) = ok (some (m, drop total bs))

-- One round depends only on the bytes from the offset on.
frame_at-drop :
    (buf : Bytes) (off : ℕ) → off ≤ length buf → frame_at buf off ≡ frame_at (drop off buf) 0
unfolding frame_at complete read_int32
frame_at-drop buf off h =
    ground
      (arith, length-drop off buf, get_elem?-drop off buf, drop-drop off 1 buf, drop-drop off 5 buf)

drop_body :
    (type a b c d len : ℕ) (rest : Bytes)
    → 4 ≤ len
    → drop (len + 1) (type ∷ a ∷ b ∷ c ∷ d ∷ rest) ≡ drop (len - 4) rest
drop_body type a b c d len rest h =
    ap (λ k. drop k (type ∷ a ∷ b ∷ c ∷ d ∷ rest)) (shift len h)
    ∙ sym (drop-drop 5 (len - 4) (type ∷ a ∷ b ∷ c ∷ d ∷ rest))
  where
    shift : (len : ℕ) → 4 ≤ len → len + 1 ≡ 5 + (len - 4)
    shift len h = omega arith

complete-next_body :
    (type a b c d : ℕ) (len : ℤ) (rest : Bytes)
    → at_rest (type ∷ a ∷ b ∷ c ∷ d ∷ rest) (complete (type ∷ a ∷ b ∷ c ∷ d ∷ rest) 0 len)
      ≡ next_body type len rest
unfolding complete next_body
complete-next_body type a b c d (negsuc n) rest = refl
complete-next_body type a b c d (pos len) rest = ground (arith, drop_body type a b c d len rest)

frame_at-front : (bs : Bytes) → at_rest bs (frame_at bs 0) ≡ front bs
unfolding frame_at front read_int32
frame_at-front [] = refl
frame_at-front (t ∷ []) = refl
frame_at-front (t ∷ a ∷ []) = refl
frame_at-front (t ∷ a ∷ b ∷ []) = refl
frame_at-front (t ∷ a ∷ b ∷ c ∷ []) = refl
frame_at-front (t ∷ a ∷ b ∷ c ∷ d ∷ rest) =
    rw (le→ltb (length (t ∷ a ∷ b ∷ c ∷ d ∷ rest) - 0) 5 (omega arith)) (
      complete-next_body t a b c d (of_word 2147483648 (a * 16777216 + b * 65536 + c * 256 + d))
        rest)

-- The loop over the bytes that are left.
unfoldable pub scan : ℕ → Bytes → Scan Bytes
scan zero bs = out_of_fuel
scan (suc fuel) bs = elim (front bs) [
  | err e ↦ failed e
  | ok none ↦ scanned [] bs
  | ok (some (m, rest)) ↦ prepend (m ∷ []) (scan fuel rest)
]

abbrev pub to_rest : Bytes → Scan ℕ → Scan Bytes
to_rest buf (scanned ms off) = scanned ms (drop off buf)
to_rest buf (failed e) = failed e
to_rest buf out_of_fuel = out_of_fuel

to_rest-prepend :
    (buf : Bytes) (ms : List RawMessage) (s : Scan ℕ)
    → to_rest buf (prepend ms s) ≡ prepend ms (to_rest buf s)
to_rest-prepend buf ms (scanned ns off) = refl
to_rest-prepend buf ms (failed e) = refl
to_rest-prepend buf ms out_of_fuel = refl

-- A round that finds a message stays inside the buffer and takes at least five bytes of it.
frame_at_bounds :
    (buf : Bytes) (off : ℕ) {m : RawMessage} {total : ℕ}
    → off ≤ length buf
    → frame_at buf off ≡ ok (some (m, total))
    → (off + total ≤ length buf) × (5 ≤ total)
unfolding frame_at complete
frame_at_bounds buf off h e = ground arith

front-drop :
    (buf : Bytes) (off : ℕ) {r : Result (Option (RawMessage × ℕ))}
    → off ≤ length buf
    → frame_at buf off ≡ r
    → front (drop off buf) ≡ at_rest (drop off buf) r
front-drop buf off h e =
    sym (frame_at-front (drop off buf))
    ∙ ap (at_rest (drop off buf)) (sym (frame_at-drop buf off h) ∙ e)

-- One round, given the claim for the rounds that follow.
scan_from_step :
    (fuel : ℕ) (buf : Bytes) (off : ℕ) (r : Result (Option (RawMessage × ℕ)))
    → off ≤ length buf
    → frame_at buf off ≡ r
    → ((o : ℕ) → o ≤ length buf → to_rest buf (scan_from fuel buf o) ≡ scan fuel (drop o buf))
    → to_rest buf (scan_from (suc fuel) buf off) ≡ scan (suc fuel) (drop off buf)
unfolding scan_from scan
scan_from_step fuel buf off (err x) h e later = rw (e, front-drop buf off h e, scan_from, scan)
scan_from_step fuel buf off (ok none) h e later = rw (e, front-drop buf off h e, scan_from, scan)
scan_from_step fuel buf off (ok (some (m, total))) h e later =
    rw (e, front-drop buf off h e, scan_from, scan)
      (to_rest-prepend buf (m ∷ []) (scan_from fuel buf (off + total))
        ∙ ap (prepend (m ∷ [])) (
            later (off + total) (frame_at_bounds buf off h e).0
            ∙ ap (scan fuel) (sym (drop-drop off total buf))))

-- The loop over offsets is the loop over the bytes that are left.
pub scan_from-scan :
    (fuel : ℕ) (buf : Bytes) (off : ℕ)
    → off ≤ length buf
    → to_rest buf (scan_from fuel buf off) ≡ scan fuel (drop off buf)
scan_from-scan zero buf off h = unfold scan_from scan in refl
scan_from-scan (suc fuel) buf off h =
    scan_from_step fuel buf off (frame_at buf off) h refl (scan_from-scan fuel buf)
