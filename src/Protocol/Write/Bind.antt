-- ===== src/Protocol/Write/Bind.antt =====
-- The Bind message: the single-pass writers against `W.bind`.
use minipg.Base.{ℕ, suc, ◌≡◌, refl, ap, subst, List, [], ◌∷◌, ◌++◌, arith, length}
use minipg.Buffer.{Bytes, Text}
use minipg.Protocol.Result.{Error, Result, ok, err, ◌>>=◌}
use minipg.Protocol.Messages.{
  i16, msg, format_codes, param_values, EncodedParam, formats_of, values_of, bind,
}
use minipg.Protocol.Messages
use minipg.Protocol.Writer.{
  Allocator, Writer, Outcome, threw, ◌then◌, int16, cstr, slice, mark, rewind,
}
use minipg.Protocol.Writer.Append.{IsValid}
use minipg.Protocol.Writer.Implements.{
  Implements, seq, then-Implements, int16-Implements, cstr-Implements, slice-rewind,
}
use minipg.Protocol.Write.{
  ResultFormat, one, each, int16s, write_values, result_formats, write_bind, write_bind_raw,
}
use minipg.Protocol.Write.Send.{Sends, SendsAt, message-Sends}
use minipg.Protocol.Write.Refine.{int16s-Implements, write_values-Implements, at_most_65535-Sends}

-- The payload in the order in which it is written.
abbrev payload_of :
    Bytes → Bytes → (count formats values single result : Result Bytes) → Result Bytes
payload_of c1 c2 count formats values single result =
    seq (ok c1) (seq (ok c2) (seq count (seq formats (seq count (seq values (seq single result))))))

payload_of-msg :
    (c1 c2 : Bytes) (count formats values single result : Result Bytes)
    → (payload_of c1 c2 count formats values single result >>= msg b'B') ≡ (
        count >>= λ n. formats >>= λ fs. values >>= λ vs. single >>= λ o.
        result >>= λ r. msg b'B' (c1 ++ (c2 ++ (n ++ (fs ++ (n ++ (vs ++ (o ++ r))))))))
payload_of-msg c1 c2 (err e) formats values single result = refl
payload_of-msg c1 c2 (ok n) (err e) values single result = refl
payload_of-msg c1 c2 (ok n) (ok fs) (err e) single result = refl
payload_of-msg c1 c2 (ok n) (ok fs) (ok vs) (err e) result = refl
payload_of-msg c1 c2 (ok n) (ok fs) (ok vs) (ok o) (err e) = refl
payload_of-msg c1 c2 (ok n) (ok fs) (ok vs) (ok o) (ok r) = refl

module _ ⦃a : Allocator⦄ where
  one-Implements : (f : ℕ) → Implements (result_formats (one f)) (seq (i16 1) (i16 f))
  unfolding result_formats
  one-Implements f = then-Implements _ _ (i16 1) (i16 f) (int16-Implements 1) (int16-Implements f)

  each-Implements :
      (fs : List ℕ)
      → Implements (result_formats (each fs)) (seq (i16 (length fs)) (format_codes fs))
  unfolding result_formats
  each-Implements fs =
      then-Implements _ _ (i16 (length fs)) (format_codes fs) (int16-Implements (length fs))
        (int16s-Implements fs)

  payload-Implements :
      (portal statement : Text) (params : List EncodedParam) (rf : ResultFormat)
      (single result : Result Bytes)
      → Implements (result_formats rf) (seq single result)
      → Implements
          (cstr portal
            then cstr statement
            then int16 (length params)
            then int16s (formats_of params)
            then int16 (length params)
            then write_values (values_of params)
            then result_formats rf)
          (payload_of
            (Messages.cstr portal)
            (Messages.cstr statement)
            (i16 (length params))
            (format_codes (formats_of params))
            (param_values (values_of params))
            single
            result)
  payload-Implements portal statement params rf single result k =
      then-Implements _ _ (ok _) _ (cstr-Implements portal) (
        then-Implements _ _ (ok _) _ (cstr-Implements statement) (
          then-Implements _ _ (i16 (length params)) _ (int16-Implements (length params)) (
            then-Implements _ _ (format_codes (formats_of params)) _
              (int16s-Implements (formats_of params))
              (then-Implements _ _ (i16 (length params)) _ (int16-Implements (length params)) (
                then-Implements _ _ (param_values (values_of params)) _
                  (write_values-Implements (values_of params)) k)))))

  -- From every valid writer, `writeBind` with one result format succeeds exactly where `W.bind` returns
  -- bytes, and then appends exactly those bytes; where `W.bind` throws, it throws the same error,
  -- leaves the writer valid and only adds to what was written.
  pub write_bind-Sends :
      (portal statement : Text) (params : List EncodedParam) (f : ℕ) (w : Writer)
      → IsValid w
      → SendsAt w (write_bind portal statement params (one f) w) (bind portal statement params f)
  unfolding write_bind bind
  write_bind-Sends portal statement params f w h =
      at_most_65535-Sends (length params) _ _
        (subst (Sends _)
          (payload_of-msg (Messages.cstr portal) (Messages.cstr statement) (i16 (length params))
            (format_codes (formats_of params)) (param_values (values_of params)) (i16 1) (i16 f))
          (message-Sends b'B' _ _ (omega arith) (
            payload-Implements portal statement params (one f) (i16 1) (i16 f) (one-Implements f))))
        w h

  -- The bytes for any result formats: a count of codes, and the codes.
  abbrev bound : Text → Text → List EncodedParam → (single result : Result Bytes) → Result Bytes
  bound portal statement params single result =
      payload_of (Messages.cstr portal) (Messages.cstr statement) (i16 (length params))
        (format_codes (formats_of params)) (param_values (values_of params)) single result
      >>= msg b'B'

  write_bind-Bound :
      (portal statement : Text) (params : List EncodedParam) (rf : ResultFormat)
      (single result : Result Bytes) (w : Writer)
      → Implements (result_formats rf) (seq single result)
      → IsValid w
      → (r : Result Bytes) × SendsAt w (write_bind portal statement params rf w) r
  unfolding write_bind
  write_bind-Bound portal statement params rf single result w k h = (
    _,
    at_most_65535-Sends (length params) _ (bound portal statement params single result)
        (message-Sends b'B' _ _ (omega arith)
          (payload-Implements portal statement params rf single result k))
        w h,
  )

  write_bind-Outcome :
      (portal statement : Text) (params : List EncodedParam) (rf : ResultFormat) (w : Writer)
      → IsValid w
      → (r : Result Bytes) × SendsAt w (write_bind portal statement params rf w) r
  write_bind-Outcome portal statement params (one f) w h =
      write_bind-Bound portal statement params (one f) (i16 1) (i16 f) w (one-Implements f) h
  write_bind-Outcome portal statement params (each fs) w h =
      write_bind-Bound portal statement params (each fs) (i16 (length fs)) (format_codes fs) w
        (each-Implements fs) h

  length-formats_of : (ps : List EncodedParam) → length (formats_of ps) ≡ length ps
  length-formats_of [] = refl
  length-formats_of (p ∷ ps) = ap suc (length-formats_of ps)

  length-values_of : (ps : List EncodedParam) → length (values_of ps) ≡ length ps
  length-values_of [] = refl
  length-values_of (p ∷ ps) = ap suc (length-values_of ps)

  -- `writeBindRaw` of the values of encoded parameters, with one code each, does from every writer what
  -- `writeBind` does of the parameters.
  pub write_bind_raw-write_bind :
      (portal statement : Text) (params : List EncodedParam) (rf : ResultFormat) (w : Writer)
      → write_bind_raw portal statement (formats_of params) (values_of params) rf w
        ≡ write_bind portal statement params rf w
  unfolding write_bind_raw write_bind
  write_bind_raw-write_bind portal statement params rf w =
      rw (length-formats_of params, length-values_of params)

  abbrev Undone : Writer → Outcome → Type 0
  Undone w (threw e v) = slice (rewind (mark w) v) ≡ slice w
  Undone w o = Unit {0}

  Undone-SendsAt :
      (w : Writer) (o : Outcome) (r : Result Bytes) → IsValid w → SendsAt w o r → Undone w o
  Undone-SendsAt w o (ok bs) h (v, e, hv, sv) = rw e tt
  Undone-SendsAt w o (err x) h (v, e, hv, g) = rw e (slice-rewind w v h hv g)

  -- When `writeBind` throws half way, whether the result formats are one code or an array of them,
  -- rewinding to the mark leaves what was written before.
  pub rewind-write_bind :
      (portal statement : Text) (params : List EncodedParam) (rf : ResultFormat) (w : Writer)
      {e : Error} {v : Writer}
      → IsValid w
      → write_bind portal statement params rf w ≡ threw e v
      → slice (rewind (mark w) v) ≡ slice w
  rewind-write_bind portal statement params rf w h e =
      let (r, k) = write_bind-Outcome portal statement params rf w h in
      subst (Undone w) e (Undone-SendsAt w _ r h k)
