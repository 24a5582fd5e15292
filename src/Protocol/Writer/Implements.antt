-- ===== src/Protocol/Writer/Implements.antt =====
-- Methods of `Writer` against the pure encoders, thrown errors included.
use minipg.Base.{
  ℕ, ℤ, ◌≤◌, ◌≡◌, sym, ap, subst, ◌∙◌, none, [], ◌++◌, append_assoc, append-nil, inl, inr, arith,
  length, take, Option-cases, take-append_length, length-take, take-take, length-append,
}
use minipg.Buffer.{Bytes, Text, uint16_be, int32_be}
use minipg.Protocol.Result.{Error, Result, ok, err, out_of_range}
use minipg.Protocol.Messages.{i16, i32}
use minipg.Protocol.Messages
use minipg.Protocol.Writer.{
  Allocator, Writer, Method, Outcome, threw, ◌then◌, patch16, patch32, slice, int16, int32, bytes,
  cstr, mark, rewind,
}
use minipg.Protocol.Writer.Append.{IsValid, AppendsAt, then-Appends, ensure-Appends}
use minipg.Protocol.Writer.Methods.{int16-Appends, int32-Appends, bytes-Appends, cstr-Appends}

-- What stood in front of the write still does.
abbrev pub Extends : Writer → Writer → Type 0
Extends w v = (more : Bytes) × (slice v ≡ slice w ++ more)

-- The method threw `e`, and only added to what was written.
abbrev pub Throws : Writer → Outcome → Error → Type 0
Throws w o e = (v : Writer) × (o ≡ threw e v) × IsValid v × Extends w v

-- The outcome is what the encoder's result says.
abbrev pub Follows : Writer → Outcome → Result Bytes → Type 0
Follows w o (ok bs) = AppendsAt w o bs
Follows w o (err e) = Throws w o e

abbrev pub Implements : Method → Result Bytes → Type 0
Implements m r = (w : Writer) → IsValid w → Follows w (m w) r

-- The bytes of two encoders in a row; the first error wins.
abbrev pub seq : Result Bytes → Result Bytes → Result Bytes
seq (ok xs) (ok ys) = ok (xs ++ ys)
seq (ok xs) (err e) = err e
seq (err e) r = err e

pub Throws-trans :
    (w v : Writer) {o : Outcome} {e : Error} (xs : Bytes)
    → slice v ≡ slice w ++ xs
    → Throws v o e
    → Throws w o e
Throws-trans w v xs sv (u, f, hu, (more, su)) =
    (u, f, hu, (xs ++ more, rw (su, sv) (append_assoc (slice w) xs more)))

pub then-Implements :
    (m k : Method) (r s : Result Bytes)
    → Implements m r
    → Implements k s
    → Implements (m then k) (seq r s)
unfolding ◌then◌
then-Implements m k (ok xs) (ok ys) p q w h = then-Appends m k xs ys p q w h
then-Implements m k (ok xs) (err e) p q w h =
    let (v, ev, hv, sv, mv) = p w h in
    let t : Throws v (k v) e = q v hv in rw ev (Throws-trans w v xs sv t)
then-Implements m k (err e) r p q w h = let (v, ev, hv, g) = p w h in (v, rw ev, hv, g)

-- Rewinding to a mark undoes whatever was written behind it.
pub slice-rewind :
    (w v : Writer) → IsValid w → IsValid v → Extends w v → slice (rewind (mark w) v) ≡ slice w
slice-rewind w v hw hv (more, e) =
    sym (take-take w.off v.off v.buf shorter)
    ∙ ap (take w.off) e
    ∙ subst (λ k. take k (slice w ++ more) ≡ slice w) size (take-append_length (slice w) more)
  where
    size : length (slice w) ≡ w.off
    size = omega (arith, length-take w.off w.buf, hw.within)

    shorter : w.off ≤ v.off
    shorter =
        omega (
          arith,
          size,
          ap length e,
          length-append (slice w) more,
          length-take v.off v.buf,
          hv.within,
        )

module _ ⦃a : Allocator⦄ where
  -- A value that the runtime refuses to write is refused with nothing appended.
  int16-Throws :
      (n : ℕ) (w : Writer) → uint16_be n ≡ none → IsValid w → Throws w (int16 n w) out_of_range
  unfolding int16 patch16 ◌then◌
  int16-Throws n w e h =
      let (v, ev, ov, mv, sv, room, pv) = ensure-Appends 2 w h in
      (
        v,
        rw (ev, e),
        record { within = omega arith; nonempty = pv },
        ([], sv ∙ sym (append-nil (slice w))),
      )

  int32-Throws :
      (z : ℤ) (w : Writer) → int32_be z ≡ none → IsValid w → Throws w (int32 z w) out_of_range
  unfolding int32 patch32 ◌then◌
  int32-Throws z w e h =
      let (v, ev, ov, mv, sv, room, pv) = ensure-Appends 4 w h in
      (
        v,
        rw (ev, e),
        record { within = omega arith; nonempty = pv },
        ([], sv ∙ sym (append-nil (slice w))),
      )

  pub int16-Implements : (n : ℕ) → Implements (int16 n) (i16 n)
  unfolding i16
  int16-Implements n w h = elim (Option-cases (uint16_be n)) [
    | inl e ↦ rw e (int16-Throws n w e h)
    | inr (bs, e) ↦ rw e (int16-Appends n e w h)
  ]

  pub int32-Implements : (z : ℤ) → Implements (int32 z) (i32 z)
  unfolding i32
  int32-Implements z w h = elim (Option-cases (int32_be z)) [
    | inl e ↦ rw e (int32-Throws z w e h)
    | inr (bs, e) ↦ rw e (int32-Appends z e w h)
  ]

  pub cstr-Implements : (s : Text) → Implements (cstr s) (ok (Messages.cstr s))
  unfolding Messages.cstr
  cstr-Implements s = cstr-Appends s

  pub bytes-Implements : (b : Bytes) → Implements (bytes b) (ok b)
  bytes-Implements b = bytes-Appends b
