-- ===== src/Protocol/Writer/Append.antt =====
-- What the methods of `Writer` append.
use minipg.Base.{
  ℕ, zero, suc, ◌+◌, ◌-◌, ◌*◌, ◌≤◌, ◌<◌, ◌≡◌, refl, ap, subst, ◌∙◌, some, ◌++◌, append_assoc, inl,
  inr, arith, length, take, ltb, leb, if◌then◌else◌, length-append, length-take, Bool-cases, tests,
}
use native.Mathlib.Nat.{zero-add}
use minipg.Buffer.{
  Bytes, overwrite, length-overwrite, overwrite_fits, take-overwrite_inside, take-overwrite_append,
}
use minipg.Protocol.Writer.{Allocator, Writer, Method, Outcome, done, ◌then◌, grow, ensure, slice}

-- The bytes written lie inside the buffer, which is never empty.
pub record IsValid (w : Writer) : Type 0 where
  pub within : w.off ≤ length w.buf
  pub nonempty : 0 < length w.buf

-- `m` succeeds, appends `bs` and leaves the start of the current message alone.
abbrev pub AppendsAt : Writer → Outcome → Bytes → Type 0
AppendsAt w r bs =
    (v : Writer) × (r ≡ done v)
    × IsValid v
    × (slice v ≡ slice w ++ bs)
    × (v.msg_start ≡ w.msg_start)

abbrev pub Appends : Method → Bytes → Type 0
Appends m bs = (w : Writer) → IsValid w → AppendsAt w (m w) bs

pub then-Appends :
    (m k : Method) (xs ys : Bytes) → Appends m xs → Appends k ys → Appends (m then k) (xs ++ ys)
unfolding ◌then◌
then-Appends m k xs ys p q w h =
    let (v, e, hv, sv, mv) = p w h in
    let (u, f, hu, su, mu) = q v hv in
    (u, rw e f, hu, rw (su, sv) (append_assoc (slice w) xs ys), mu ∙ mv)

-- Doubling from a capacity above 0 reaches the need within the fuel.
grow_enough :
    (fuel size need : ℕ)
    → 0 < size
    → need - size < fuel
    → (c : ℕ) × (grow fuel size need ≡ some c) × (need ≤ c) × (0 < c)
unfolding grow
grow_enough zero size need p h = absurd (omega arith)
grow_enough (suc fuel) size need p h = elim (Bool-cases (ltb size need)) [
  | inl more ↦ rw more (grow_enough fuel (size * 2) need (omega arith) (omega tests))
  | inr fits ↦ (size, rw fits, omega tests, p)
]

-- A write at the end of what was written, with room for it.
pub put-AppendsAt :
    (w : Writer) (bs : Bytes)
    → IsValid w
    → w.off + length bs ≤ length w.buf
    → AppendsAt w (done (record w { buf = overwrite w.buf w.off bs; off = w.off + length bs })) bs
put-AppendsAt w bs h fits =
    let size = length-overwrite w.buf w.off bs in
    (
      record w { buf = overwrite w.buf w.off bs; off = w.off + length bs },
      refl,
      record { within = omega (arith, size); nonempty = omega (arith, size, h.nonempty) },
      take-overwrite_append w.buf w.off bs fits,
      refl,
    )

-- Two appends in a row, the first of which ends in a known writer.
pub AppendsAt-trans :
    (w v : Writer) {r : Outcome} (xs ys : Bytes)
    → slice v ≡ slice w ++ xs
    → v.msg_start ≡ w.msg_start
    → AppendsAt v r ys
    → AppendsAt w r (xs ++ ys)
AppendsAt-trans w v xs ys sv mv (u, f, hu, su, mu) =
    (u, f, hu, rw (su, sv) (append_assoc (slice w) xs ys), mu ∙ mv)

-- A slot inside what was written is patched in place.
pub patch-slice :
    (w : Writer) (pre old rest bs : Bytes)
    → IsValid w
    → slice w ≡ pre ++ (old ++ rest)
    → length bs ≡ length old
    → take w.off (overwrite w.buf (length pre) bs) ≡ pre ++ (bs ++ rest)
patch-slice w pre old rest bs h e same =
    take-overwrite_inside w.off w.buf (length pre) bs inside
    ∙ ap (λ c. overwrite c (length pre) bs) e
    ∙ overwrite_fits pre old rest bs same
  where
    inside : length pre + length bs ≤ w.off
    inside = omega (
      arith,
      same,
      ap length e,
      length-take w.off w.buf,
      length-append pre (old ++ rest),
      length-append old rest,
      h.within,
    )

module _ ⦃a : Allocator⦄ where
  -- Room for n more bytes; nothing that was written changes.
  pub ensure-Appends :
      (n : ℕ) (w : Writer)
      → IsValid w
      → (v : Writer) × (ensure n w ≡ done v)
        × (v.off ≡ w.off)
        × (v.msg_start ≡ w.msg_start)
        × (slice v ≡ slice w)
        × (v.off + n ≤ length v.buf)
        × (0 < length v.buf)
  unfolding ensure
  ensure-Appends n w h = elim (Bool-cases (leb (w.off + n) (length w.buf))) [
    | inl fits ↦ (w, rw fits, refl, refl, refl, ground arith, h.nonempty)
    | inr short ↦
        let (c, e, hc, pc) =
          grow_enough (suc (w.off + n)) (length w.buf * 2) (w.off + n) (ground arith)
            (omega arith) in
        let v : Writer = record w { buf = overwrite (a.alloc c) 0 (slice w) } in
        let size : length v.buf ≡ c = length-overwrite (a.alloc c) 0 (slice w) ∙ a.length-alloc c in
        let written : length (slice w) ≡ w.off = omega (arith, length-take w.off w.buf, h.within) in
        (
          v,
          rw (short, e),
          refl,
          refl,
          subst (λ k. take k v.buf ≡ slice w) written
              (rw zero-add at
                (take-overwrite_append (a.alloc c) 0 (slice w) (omega (arith, a.length-alloc c)))),
          omega (arith, size),
          omega (arith, size),
        )
  ]

  pub ensure_then-Appends :
      (n : ℕ) (k : Method) (bs : Bytes)
      → ((v : Writer) → IsValid v → v.off + n ≤ length v.buf → AppendsAt v (k v) bs)
      → Appends (ensure n then k) bs
  unfolding ◌then◌
  ensure_then-Appends n k bs step w h =
      let (v, e, ov, mv, sv, room, pv) = ensure-Appends n w h in
      let (u, f, hu, su, mu) = step v (record { within = omega arith; nonempty = pv }) room in
      (u, rw e f, hu, rw (← sv) su, mu ∙ mv)
