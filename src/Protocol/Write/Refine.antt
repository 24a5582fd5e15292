-- ===== src/Protocol/Write/Refine.antt =====
-- The writers of src/protocol.ts against the builders of the object `W`.
use minipg.Base.{
  ℕ, ℤ, pos, negsuc, ◌<◌, ◌≡◌, refl, sym, subst, Option, none, some, List, [], ◌∷◌, ◌++◌,
  append-nil, inl, inr, arith, length, Bool-cases, ltb,
}
use minipg.Buffer.{Bytes, Text}
use minipg.Protocol.Result.{Result, ok, err, ◌>>=◌, ◌>>◌, throw_if, query_text, too_many_parameters}
use minipg.Protocol.Messages.{
  i16, i32, msg, guard_nul, format_codes, param_value, param_values, EncodedParam, formats_of,
  values_of, Target, statement, portal, target_byte, parse, bind, describe, execute, close, sync,
}
use minipg.Protocol.Messages
use minipg.Protocol.Writer.Append.{IsValid}
use minipg.Protocol.Writer.{Allocator, Writer, Method, ◌then◌, int16, int32, cstr, bytes, byte}
use minipg.Protocol.Writer.Methods.{byte-Appends}
use minipg.Protocol.Writer.Implements.{
  Implements, seq, then-Implements, int16-Implements, int32-Implements, cstr-Implements,
  bytes-Implements,
}
use minipg.Protocol.Write.{
  message, guarded, skip, int16s, param_oids, write_parse, write_describe, write_value,
  write_values, at_most_65535, write_execute, write_close, write_sync,
}
use minipg.Protocol.Write.Send.{Sends, SendsAt, message-Sends}

seq-bind : (r s : Result Bytes) → seq r s ≡ (r >>= λ x. s >>= λ y. ok (x ++ y))
seq-bind (ok xs) (ok ys) = refl
seq-bind (ok xs) (err e) = refl
seq-bind (err e) s = refl

skip-Implements : Implements skip (ok [])
skip-Implements w h = (w, refl, h, sym (append-nil _), refl)

module _ ⦃a : Allocator⦄ where
  pub int16s-Implements : (ns : List ℕ) → Implements (int16s ns) (format_codes ns)
  unfolding int16s format_codes
  int16s-Implements [] = skip-Implements
  int16s-Implements (n ∷ ns) =
      subst (Implements (int16s (n ∷ ns))) (seq-bind (i16 n) (format_codes ns)) (
        then-Implements (int16 n) (int16s ns) (i16 n) (format_codes ns) (int16-Implements n)
          (int16s-Implements ns))

  write_value-Implements : (v : Option Bytes) → Implements (write_value v) (param_value v)
  unfolding write_value param_value
  write_value-Implements none = int32-Implements (negsuc 0)
  write_value-Implements (some b) =
      subst (Implements (write_value (some b))) (seq-bind (i32 (pos (length b))) (ok b)) (
        then-Implements (int32 (pos (length b))) (bytes b) (i32 (pos (length b))) (ok b)
          (int32-Implements _) (bytes-Implements b))

  pub write_values-Implements :
      (vs : List (Option Bytes)) → Implements (write_values vs) (param_values vs)
  unfolding write_values param_values
  write_values-Implements [] = skip-Implements
  write_values-Implements (v ∷ vs) =
      subst (Implements (write_values (v ∷ vs))) (seq-bind (param_value v) (param_values vs)) (
        then-Implements (write_value v) (write_values vs) (param_value v) (param_values vs)
          (write_value-Implements v) (write_values-Implements vs))

  pub guarded-Sends :
      (g : Result (Unit {0})) (m : Method) (r : Result Bytes)
      → Sends m r
      → Sends (guarded g m) (g >> r)
  guarded-Sends (ok u) m r s = s
  guarded-Sends (err e) m r s = λ w h. (w, refl, h, ([], sym (append-nil _)))

  pub at_most_65535-Sends :
      (n : ℕ) (m : Method) (r : Result Bytes)
      → Sends m r
      → Sends (at_most_65535 n m) (throw_if (ltb 65535 n) (too_many_parameters n) >> r)
  unfolding at_most_65535
  at_most_65535-Sends n m r s w h = elim (Bool-cases (ltb 65535 n)) [
    | inl e ↦ rw e (w, refl, h, ([], sym (append-nil _)))
    | inr e ↦ rw e (s w h)
  ]

  -- `writeSync` sends `W.sync()`.
  pub write_sync-Sends : Sends write_sync sync
  unfolding write_sync sync
  write_sync-Sends = message-Sends b'S' skip (ok []) (omega arith) skip-Implements

  named-Implements :
      (kind : Target) (name : Text)
      → Implements
          (byte (target_byte kind) then cstr name)
          (ok (target_byte kind ∷ Messages.cstr name))
  named-Implements kind name =
      then-Implements (byte (target_byte kind)) (cstr name) (ok (target_byte kind ∷ [])) (ok _)
        (byte-Appends (target_byte kind) (small kind)) (cstr-Implements name)
    where
      small : (kind : Target) → target_byte kind < 256
      small statement = omega arith
      small portal = omega arith

  -- `writeDescribe` sends `W.describe`.
  pub write_describe-Sends :
      (kind : Target) (name : Text) → Sends (write_describe kind name) (describe kind name)
  unfolding write_describe describe
  write_describe-Sends kind name =
      message-Sends b'D' _ (ok _) (omega arith) (named-Implements kind name)

  pub write_close-Sends :
      (kind : Target) (name : Text) → Sends (write_close kind name) (close kind name)
  unfolding write_close close
  write_close-Sends kind name =
      message-Sends b'C' _ (ok _) (omega arith) (named-Implements kind name)

  pub write_execute-Sends : (name : Text) (n : ℤ) → Sends (write_execute name n) (execute name n)
  unfolding write_execute execute
  write_execute-Sends name n = subst (Sends (write_execute name n)) (regroup (i32 n)) (
      message-Sends b'E' _ (seq (ok (Messages.cstr name)) (i32 n)) (omega arith) (
        then-Implements (cstr name) (int32 n) (ok _) (i32 n) (cstr-Implements name)
          (int32-Implements n)))
    where
      regroup :
          (r : Result Bytes)
          → (seq (ok (Messages.cstr name)) r >>= msg b'E')
            ≡ (r >>= λ max. msg b'E' (Messages.cstr name ++ max))
      regroup (ok max) = refl
      regroup (err e) = refl

  -- From every valid writer, `writeParse` with no declared types succeeds exactly where `W.parse`
  -- returns bytes, and then appends exactly those bytes; where `W.parse` throws, it throws the same
  -- error, leaves the writer valid and only adds to what was written.
  pub write_parse-Sends :
      (name sql : Text) (w : Writer)
      → IsValid w
      → SendsAt w (write_parse name sql [] w) (parse name sql)
  unfolding write_parse param_oids parse
  write_parse-Sends name sql w h =
      guarded-Sends (guard_nul sql query_text) _ _
        (subst (Sends (message b'P' (cstr name then cstr sql then int16 0))) (regroup (i16 0)) (
          message-Sends b'P' _
            (seq (ok (Messages.cstr name)) (seq (ok (Messages.cstr sql)) (i16 0))) (omega arith)
            (then-Implements (cstr name) _ (ok _) (seq (ok _) (i16 0)) (cstr-Implements name) (
              then-Implements (cstr sql) (int16 0) (ok _) (i16 0) (cstr-Implements sql)
                (int16-Implements 0)))))
        w h
    where
      regroup :
          (r : Result Bytes)
          → (seq (ok (Messages.cstr name)) (seq (ok (Messages.cstr sql)) r) >>= msg b'P')
            ≡ (r >>= λ n. msg b'P' (Messages.cstr name ++ (Messages.cstr sql ++ n)))
      regroup (ok n) = refl
      regroup (err e) = refl
