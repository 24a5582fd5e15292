-- ===== src/Protocol/Write.antt =====
-- The message writers of src/protocol.ts: each appends one message to a `Writer`.
pub mod Send
pub mod Refine
pub mod Bind
use minipg.Base.{
  ℕ, zero, suc, ℤ, pos, negsuc, ◌+◌, ◌*◌, ◌≡◌, Bool, true, false, Option, none, some, List, [], ◌∷◌,
  length, ltb, leb, ◌==◌, if◌then◌else◌,
}
use minipg.Buffer.{Bytes, Text}
use minipg.Protocol.Result.{Error, Result, ok, err, query_text, contains_nul, too_many_parameters}
use minipg.Protocol.Messages.{guard_nul, Target, target_byte, EncodedParam, formats_of, values_of}
use minipg.Protocol.Writer.{
  Allocator, Writer, Method, Outcome, done, threw, hangs, ◌then◌, byte, int16, int32, cstr, bytes,
  start, end, patch16, mark,
}

abbrev guarded : Result (Unit {0}) → Method → Method
guarded (ok _) m w = m w
guarded (err e) m w = threw e w

abbrev pub skip : Method
skip w = done w

-- `resultFormat: number | number[]`
pub data ResultFormat : Type 0 where
  one : ℕ → ResultFormat
  each : List ℕ → ResultFormat

-- How one value goes into the message: what is written, and the format code that is reported.
pub record Encoding : Type 0 where
  pub write : Method
  pub code : ℕ

-- `ParamsEncoder`: the value and its position.
abbrev pub ParamsEncoder {ℓ} : Type ℓ → Type ℓ
ParamsEncoder V = V → ℕ → Encoding

module _ ⦃a : Allocator⦄ where
  -- `w.start(type)`, the payload, `w.end()`.
  abbrev pub message : ℕ → Method → Method
  message type body = start type then body then end

  unfoldable pub int16s : List ℕ → Method
  int16s [] = skip
  int16s (n ∷ ns) = int16 n then int16s ns

  unfoldable pub int32s : List ℕ → Method
  int32s [] = skip
  int32s (n ∷ ns) = int32 (pos n) then int32s ns

  -- Parameter types that the caller declares pin them on the server.
  unfoldable pub param_oids : List ℕ → Method
  param_oids [] = int16 0
  param_oids (o ∷ os) = int16 (length (o ∷ os)) then int32s (o ∷ os)

  unfoldable pub write_parse : Text → Text → List ℕ → Method
  write_parse name sql oids =
      guarded (guard_nul sql query_text)
        (message b'P' (cstr name then cstr sql then param_oids oids))

  unfoldable pub write_describe : Target → Text → Method
  write_describe kind name = message b'D' (byte (target_byte kind) then cstr name)

  unfoldable pub write_value : Option Bytes → Method
  write_value none = int32 (negsuc 0)
  write_value (some b) = int32 (pos (length b)) then bytes b

  unfoldable pub write_values : List (Option Bytes) → Method
  write_values [] = skip
  write_values (v ∷ vs) = write_value v then write_values vs

  unfoldable pub result_formats : ResultFormat → Method
  result_formats (one f) = int16 1 then int16 f
  result_formats (each fs) = int16 (length fs) then int16s fs

  unfoldable pub at_most_65535 : ℕ → Method → Method
  at_most_65535 n m w = if ltb 65535 n then threw (too_many_parameters n) w else m w

  unfoldable pub write_bind : Text → Text → List EncodedParam → ResultFormat → Method
  write_bind portal statement params rf = at_most_65535 (length params) (
      message b'B' (
        cstr portal
        then cstr statement
        then int16 (length params)
        then int16s (formats_of params)
        then int16 (length params)
        then write_values (values_of params)
        then result_formats rf))

  -- Pre-encoded parameters go out verbatim, under Bind's own convention for the format codes.
  unfoldable pub write_bind_raw : Text → Text → List ℕ → List (Option Bytes) → ResultFormat → Method
  write_bind_raw portal statement formats values rf = at_most_65535 (length values) (
      message b'B' (
        cstr portal
        then cstr statement
        then int16 (length formats)
        then int16s formats
        then int16 (length values)
        then write_values values
        then result_formats rf))

  unfoldable pub write_execute : Text → ℤ → Method
  write_execute portal max_rows = message b'E' (cstr portal then int32 max_rows)

  unfoldable pub write_close : Target → Text → Method
  write_close kind name = message b'C' (byte (target_byte kind) then cstr name)

  unfoldable pub write_sync : Method
  write_sync = message b'S' skip

  unfoldable pub write_query : Text → Method
  write_query sql = guarded (guard_nul sql query_text) (message b'Q' (cstr sql))

  unfoldable pub reserve : ℕ → Method
  reserve zero = skip
  reserve (suc n) = int16 0 then reserve n

  module _ {ℓ} {V : Type ℓ} (enc : ParamsEncoder V) where
    -- The encoder is called in order; a code other than 0 is patched into its reserved slot.
    unfoldable pub write_encoded : ℕ → ℕ → List V → Method
    write_encoded fmt_pos i [] = skip
    write_encoded fmt_pos i (v ∷ vs) =
        let f = (enc v i).code in
        (enc v i).write
        then (if f == 0 then skip else patch16 (fmt_pos + i * 2) f)
        then write_encoded fmt_pos (suc i) vs

    unfoldable pub formats_and_values : List V → Method
    formats_and_values params w =
        (reserve (length params) then int16 (length params) then write_encoded (mark w) 0 params) w

    unfoldable pub write_bind_with : Text → Text → List V → ResultFormat → Method
    write_bind_with portal statement params rf = at_most_65535 (length params) (
        message b'B' (
          cstr portal
          then cstr statement
          then int16 (length params)
          then formats_and_values params
          then result_formats rf))
