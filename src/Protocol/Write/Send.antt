-- ===== src/Protocol/Write/Send.antt =====
-- A message is framed by `start` and `end`, which patches its length.
use minipg.Base.{
  ℕ, pos, ◌+◌, ◌-◌, ◌≤◌, ◌<◌, ◌≡◌, refl, sym, ap, subst, ◌∙◌, none, some, [], ◌∷◌, ◌++◌,
  append_assoc, inl, inr, arith, length, take, drop, length-append, length-take, length-drop,
  take-add, le→leb, Option-cases,
}
use minipg.Buffer.{Bytes, int32_be, overwrite, length-overwrite}
use minipg.Protocol.Result.{Result, ok, err, ◌>>=◌, out_of_range}
use minipg.Protocol.Messages.{msg, i32}
use minipg.Protocol.Writer.Implements.{Implements, Throws, Throws-trans}
use minipg.Protocol.Write.{message}
use minipg.Protocol.Writer.{
  Allocator, Writer, Method, Outcome, done, threw, ◌then◌, patch32, advance, slice, start, end,
  set_msg_start,
}
use minipg.Protocol.Writer.Append.{IsValid, Appends, ensure-Appends, patch-slice}
use minipg.Protocol.Writer.Methods.{byte-Appends, length-int32_be}

-- As `Implements`, but the start of the current message may move.
abbrev pub SendsAt : Writer → Outcome → Result Bytes → Type 0
SendsAt w o (ok bs) = (v : Writer) × (o ≡ done v) × IsValid v × (slice v ≡ slice w ++ bs)
SendsAt w o (err e) = Throws w o e

abbrev pub Sends : Method → Result Bytes → Type 0
Sends m r = (w : Writer) → IsValid w → SendsAt w (m w) r

module _ ⦃a : Allocator⦄ where
  -- `start` leaves a slot of four places behind the type byte.
  start_lem :
      (type : ℕ) (w : Writer)
      → type < 256
      → IsValid w
      → (v : Writer) × (slot : Bytes) × (start type w ≡ done v)
        × IsValid v
        × (length slot ≡ 4)
        × (slice v ≡ (slice w ++ (type ∷ [])) ++ slot)
        × (v.msg_start ≡ length (slice w ++ (type ∷ [])))
  unfolding start set_msg_start advance ◌then◌
  start_lem type w small h =
      let (u, e, hu, su, mu) = byte-Appends type small w h in
      let m : Writer = record u { msg_start = u.off } in
      let hm : IsValid m = record { within = hu.within; nonempty = hu.nonempty } in
      let (v, f, ov, mv, sv, room, pv) = ensure-Appends 4 m hm in
      let slot = take 4 (drop v.off v.buf) in
      (
        record v { off = v.off + 4 },
        slot,
        rw (e, f),
        record { within = room; nonempty = pv },
        omega (arith, length-take 4 (drop v.off v.buf), length-drop v.off v.buf),
        take-add v.off 4 v.buf ∙ ap (λ c. c ++ slot) (sv ∙ su),
        mv ∙ sym (sym (ap length su) ∙ omega (arith, length-take u.off u.buf, hu.within)),
      )

  -- `end` patches the slot with the number of bytes from the slot on.
  end_lem :
      (u : Writer) (pre slot payload : Bytes) {len : Bytes}
      → IsValid u
      → slice u ≡ pre ++ (slot ++ payload)
      → length slot ≡ 4
      → u.msg_start ≡ length pre
      → int32_be (pos (length payload + 4)) ≡ some len
      → (v : Writer) × (end u ≡ done v) × IsValid v × (slice v ≡ pre ++ (len ++ payload))
  unfolding end patch32
  end_lem u pre slot payload {len} h su four mu e =
      rw (covered, e, le→leb _ _ inside)
        (
          record u { buf = overwrite u.buf u.msg_start len },
          refl,
          record {
            within = omega (arith, size, h.within);
            nonempty = omega (arith, size, h.nonempty);
          },
          subst (λ k. take u.off (overwrite u.buf k len) ≡ pre ++ (len ++ payload)) (sym mu)
              (patch-slice u pre slot payload len h su (omega (arith, wide, four))),
        )
    where
      wide : length len ≡ 4
      wide = length-int32_be _ e

      size : length (overwrite u.buf u.msg_start len) ≡ length u.buf
      size = length-overwrite u.buf u.msg_start len

      off_lem : u.off ≡ length pre + (4 + length payload)
      off_lem = omega (
        arith,
        ap length su,
        length-take u.off u.buf,
        length-append pre (slot ++ payload),
        length-append slot payload,
        four,
        h.within,
      )

      covered : u.off - u.msg_start ≡ length payload + 4
      covered = omega (arith, off_lem, mu)

      inside : u.msg_start + length len ≤ length u.buf
      inside = omega (arith, off_lem, mu, wide, h.within)

  -- A length that does not fit an int32 is refused when the message ends.
  end-Throws :
      (u : Writer) (pre slot payload : Bytes)
      → IsValid u
      → slice u ≡ pre ++ (slot ++ payload)
      → length slot ≡ 4
      → u.msg_start ≡ length pre
      → int32_be (pos (length payload + 4)) ≡ none
      → end u ≡ threw out_of_range u
  unfolding end patch32
  end-Throws u pre slot payload h su four mu e = rw (covered, e)
    where
      covered : u.off - u.msg_start ≡ length payload + 4
      covered = omega (
        arith,
        ap length su,
        length-take u.off u.buf,
        length-append pre (slot ++ payload),
        length-append slot payload,
        four,
        mu,
        h.within,
      )

  message_ok-Sends :
      (type : ℕ) (body : Method) (payload : Bytes)
      → type < 256
      → Appends body payload
      → Sends (message type body) (msg type payload)
  unfolding ◌then◌ msg i32
  message_ok-Sends type body payload small appends w h =
      let (v, slot, ev, hv, four, sv, mv) = start_lem type w small h in
      let (u, eu, hu, su, mu) = appends v hv in
      let pre = slice w ++ (type ∷ []) in
      let su' : slice u ≡ pre ++ (slot ++ payload) =
        su ∙ ap (λ c. c ++ payload) sv ∙ append_assoc pre slot payload in
      elim (Option-cases (int32_be (pos (length payload + 4)))) [
        | inl e ↦
            rw (e, ev, eu)
              (
                u,
                end-Throws u pre slot payload hu su' four (mu ∙ mv) e,
                hu,
                (
                  type ∷ (slot ++ payload),
                  su' ∙ append_assoc (slice w) (type ∷ []) (slot ++ payload),
                ),
              )
        | inr (len, e) ↦
            let (x, ex, hx, sx) = end_lem u pre slot payload hu su' four (mu ∙ mv) e in
            rw (e, ev, eu) (x, ex, hx, sx ∙ append_assoc (slice w) (type ∷ []) (len ++ payload))
      ]

  -- A framed message sends what `msg` makes of the payload, or throws what the payload throws.
  pub message-Sends :
      (type : ℕ) (body : Method) (r : Result Bytes)
      → type < 256
      → Implements body r
      → Sends (message type body) (r >>= msg type)
  unfolding ◌then◌
  message-Sends type body (ok payload) small implements =
      message_ok-Sends type body payload small implements
  message-Sends type body (err x) small implements = λ w h.
      let (v, slot, ev, hv, four, sv, mv) = start_lem type w small h in
      let t : Throws v (body v) x = implements v hv in
      let (u, eu, hu, g) =
        Throws-trans w v ((type ∷ []) ++ slot) (sv ∙ append_assoc (slice w) (type ∷ []) slot) t in
      (u, rw (ev, eu), hu, g)
