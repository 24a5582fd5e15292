-- ===== src/Protocol/Writer/Methods.antt =====
-- Each method of `Writer` appends the bytes that it encodes.
use minipg.Base.{
  ℕ, ℤ, pos, ◌+◌, ◌-◌, ◌*◌, ◌%◌, ◌≤◌, ◌<◌, ◌≡◌, refl, ap, subst, ◌∙◌, some, [], ◌∷◌, ◌++◌,
  append_assoc, arith, length, take, drop, length-take, length-drop, take-add, le→leb,
}
use minipg.Buffer.{
  Bytes, Text, utf8, uint16_be, int32_be, overwrite, characters, fitting, length-overwrite,
  take-overwrite_append, fitting_all, length-utf8,
}
use minipg.Protocol.Writer.{
  Allocator, Writer, done, ◌then◌, patch16, patch32, advance, slice, byte, int16, int32, bytes,
  cstr, str, lp_str, lp_bytes, put_byte, put_bytes, put_cstr, put_str, put_lp_str,
}
use minipg.Protocol.Writer.Append.{
  IsValid, AppendsAt-trans, patch-slice, AppendsAt, Appends, put-AppendsAt, ensure_then-Appends,
  then-Appends,
}

pub length-uint16_be : (n : ℕ) {bs : Bytes} → uint16_be n ≡ some bs → length bs ≡ 2
unfolding uint16_be
length-uint16_be n e = ground arith

pub length-int32_be : (z : ℤ) {bs : Bytes} → int32_be z ≡ some bs → length bs ≡ 4
unfolding int32_be
length-int32_be z e = ground arith

-- Bytes written four places further on, then a word patched in front of them.
behind_slot :
    (v : Writer) (t len : Bytes)
    → length len ≡ 4
    → IsValid v
    → v.off + 4 + length t ≤ length v.buf
    → IsValid (record v { buf = overwrite v.buf (v.off + 4) t; off = v.off + (4 + length t) })
    → take (v.off + (4 + length t)) (overwrite (overwrite v.buf (v.off + 4) t) v.off len)
      ≡ slice v ++ (len ++ t)
behind_slot v t len four hv fits hu =
    subst (λ k. take (v.off + (4 + length t)) (overwrite mem k len) ≡ slice v ++ (len ++ t)) front
      (patch-slice u (slice v) slot t len hu before (omega (arith, four, slot_size)))
  where
    mem : Bytes
    mem = overwrite v.buf (v.off + 4) t

    u : Writer
    u = record v { buf = mem; off = v.off + (4 + length t) }

    slot : Bytes
    slot = take 4 (drop v.off v.buf)

    front : length (slice v) ≡ v.off
    front = omega (arith, length-take v.off v.buf, hv.within)

    slot_size : length slot ≡ 4
    slot_size = omega (arith, length-take 4 (drop v.off v.buf), length-drop v.off v.buf)

    regroup : v.off + (4 + length t) ≡ v.off + 4 + length t
    regroup = omega arith

    before : slice u ≡ slice v ++ (slot ++ t)
    before =
        ap (λ k. take k mem) regroup
        ∙ take-overwrite_append v.buf (v.off + 4) t fits
        ∙ ap (λ c. c ++ t) (take-add v.off 4 v.buf)
        ∙ append_assoc (slice v) slot t

module _ ⦃a : Allocator⦄ where
  pub byte-Appends : (n : ℕ) → n < 256 → Appends (byte n) (n ∷ [])
  unfolding byte put_byte
  byte-Appends n h =
      ensure_then-Appends 1 (put_byte n) (n ∷ [])
        λ v hv room. rw (small n h) (put-AppendsAt v (n ∷ []) hv room)
    where
      small : (n : ℕ) → n < 256 → n % 256 ≡ n
      small n h = omega arith

  pub int16-Appends : (n : ℕ) {bs : Bytes} → uint16_be n ≡ some bs → Appends (int16 n) bs
  unfolding int16 patch16 advance ◌then◌
  int16-Appends n {bs} e = ensure_then-Appends 2 _ bs λ v hv room.
      let two = length-uint16_be n e in
      rw (e, two, le→leb _ _ room)
        (subst
          (λ k.
            AppendsAt v (done (record v { buf = overwrite v.buf v.off bs; off = v.off + k })) bs)
          two (put-AppendsAt v bs hv (omega (arith, two))))

  pub int32-Appends : (z : ℤ) {bs : Bytes} → int32_be z ≡ some bs → Appends (int32 z) bs
  unfolding int32 patch32 advance ◌then◌
  int32-Appends z {bs} e = ensure_then-Appends 4 _ bs λ v hv room.
      let four = length-int32_be z e in
      rw (e, four, le→leb _ _ room)
        (subst
          (λ k.
            AppendsAt v (done (record v { buf = overwrite v.buf v.off bs; off = v.off + k })) bs)
          four (put-AppendsAt v bs hv (omega (arith, four))))

  pub bytes-Appends : (b : Bytes) → Appends (bytes b) b
  unfolding bytes put_bytes
  bytes-Appends b =
      ensure_then-Appends (length b) (put_bytes b) b (λ v hv room. put-AppendsAt v b hv room)

  -- Text that fits is written whole.
  written_whole :
      (w : Writer) (at : ℕ) (s : Text)
      → at + length (utf8 s) ≤ length w.buf
      → fitting (length w.buf - at) (characters s) ≡ utf8 s
  unfolding utf8
  written_whole w at s h = fitting_all (length w.buf - at) (characters s) (omega arith)

  pub str-Appends : (s : Text) → Appends (str s) (utf8 s)
  unfolding str put_str
  str-Appends s = ensure_then-Appends (length s * 3) (put_str s) (utf8 s) λ v hv room.
      let fits : v.off + length (utf8 s) ≤ length v.buf = omega (arith, length-utf8 s) in
      rw (written_whole v v.off s fits) (put-AppendsAt v (utf8 s) hv fits)

  pub cstr-Appends : (s : Text) → Appends (cstr s) (utf8 s ++ (0 ∷ []))
  unfolding cstr put_cstr
  cstr-Appends s = ensure_then-Appends (length (utf8 s) + 1) (put_cstr s) _ λ v hv room.
      let fits : v.off + length (utf8 s) ≤ length v.buf = omega arith in
      let mem = overwrite v.buf v.off (utf8 s) in
      let size = length-overwrite v.buf v.off (utf8 s) in
      let u : Writer = record v { buf = mem; off = v.off + length (utf8 s) } in
      let hu : IsValid u = record {
        within = omega (arith, size);
        nonempty = omega (arith, size, hv.nonempty);
      } in
      rw (written_whole v v.off s fits) (
        AppendsAt-trans v u (utf8 s) (0 ∷ []) (take-overwrite_append v.buf v.off (utf8 s) fits) refl
          (put-AppendsAt u (0 ∷ []) hu (omega (arith, size))))

  pub lp_str-Appends :
      (s : Text) {len : Bytes}
      → int32_be (pos (length (utf8 s))) ≡ some len
      → Appends (lp_str s) (len ++ utf8 s)
  unfolding lp_str put_lp_str patch32 advance ◌then◌
  lp_str-Appends s {len} e = ensure_then-Appends (4 + length s * 3) (put_lp_str s) _ λ v hv room.
      let t = utf8 s in
      let four = length-int32_be _ e in
      let fits : v.off + 4 + length t ≤ length v.buf = omega (arith, length-utf8 s) in
      let mem = overwrite v.buf (v.off + 4) t in
      let size = length-overwrite v.buf (v.off + 4) t in
      let u : Writer = record v { buf = mem; off = v.off + (4 + length t) } in
      let hu : IsValid u = record {
        within = omega (arith, size);
        nonempty = omega (arith, size, hv.nonempty);
      } in
      let inside : v.off + length len ≤ length mem = omega (arith, size, four) in
      let wide = length-overwrite mem v.off len in
      rw (written_whole v (v.off + 4) s fits, e, le→leb _ _ inside)
        (
          record u { buf = overwrite mem v.off len },
          refl,
          record {
            within = omega (arith, wide, hu.within);
            nonempty = omega (arith, wide, hu.nonempty);
          },
          behind_slot v t len four hv fits hu,
          refl,
        )

  pub lp_bytes-Appends :
      (b : Bytes) {len : Bytes}
      → int32_be (pos (length b)) ≡ some len
      → Appends (lp_bytes b) (len ++ b)
  unfolding lp_bytes
  lp_bytes-Appends b {len} e =
      then-Appends (int32 (pos (length b))) (bytes b) len b (int32-Appends _ e) (bytes-Appends b)
