-- ===== src/Protocol/Messages.antt =====
-- The object `W` of src/protocol.ts: one function for each frontend message, which returns its bytes.
use minipg.Base.{
  ℕ, ℤ, pos, negsuc, ◌+◌, Bool, false, ◌||◌, Option, none, some, List, [], ◌∷◌, ◌++◌, length, ltb,
  ◌==◌,
}
use minipg.Buffer.{Bytes, Text, utf8, uint16_be, int32_be}
use minipg.Protocol.Result.{
  Result, ok, ◌>>=◌, ◌>>◌, in_range, throw_if, Subject, query_text, startup_parameter, contains_nul,
  too_many_parameters,
}

abbrev pub protocol_version : ℕ
protocol_version = 196608

unfoldable pub i16 : ℕ → Result Bytes
i16 n = in_range (uint16_be n)

unfoldable pub i32 : ℤ → Result Bytes
i32 n = in_range (int32_be n)

unfoldable pub cstr : Text → Bytes
cstr s = utf8 s ++ (0 ∷ [])

unfoldable pub has_nul : Text → Bool
has_nul [] = false
has_nul (c ∷ s) = c == 0 || has_nul s

unfoldable pub guard_nul : Text → Subject → Result (Unit {0})
guard_nul s what = throw_if (has_nul s) (contains_nul what)

-- The type byte, the int32 length of itself and the payload, the payload.
unfoldable pub msg : ℕ → Bytes → Result Bytes
msg type payload = do len ← i32 (pos (length payload + 4)); ok (type ∷ (len ++ payload))

-- A parameter that the caller leaves undefined is skipped.
unfoldable pub startup_parameters : List (Text × Option Text) → Result Bytes
startup_parameters [] = ok []
startup_parameters ((k, none) ∷ params) = startup_parameters params
startup_parameters ((k, some v) ∷ params) = do
  guard_nul v (startup_parameter k)
  rest ← startup_parameters params
  ok (cstr k ++ (cstr v ++ rest))

unfoldable pub startup : List (Text × Option Text) → Result Bytes
startup params = do
  version ← i32 (pos protocol_version)
  parts ← startup_parameters params
  let payload = version ++ (parts ++ (0 ∷ []))
  len ← i32 (pos (length payload + 4))
  ok (len ++ payload)

unfoldable pub password : Text → Result Bytes
password s = msg b'p' (cstr s)

unfoldable pub sasl_initial : Text → Text → Result Bytes
sasl_initial mechanism client_first = do
  let cf = utf8 client_first
  len ← i32 (pos (length cf))
  msg b'p' (cstr mechanism ++ (len ++ cf))

unfoldable pub sasl_response : Text → Result Bytes
sasl_response client_final = msg b'p' (utf8 client_final)

unfoldable pub parse : Text → Text → Result Bytes
parse name sql = do
  guard_nul sql query_text
  none_given ← i16 0
  msg b'P' (cstr name ++ (cstr sql ++ none_given))

-- A parameter as the encoder hands it over; `none` is SQL NULL.
pub record EncodedParam : Type 0 where
  pub format : ℕ
  pub bytes : Option Bytes

unfoldable pub format_codes : List ℕ → Result Bytes
format_codes [] = ok []
format_codes (f ∷ fs) = do code ← i16 f; rest ← format_codes fs; ok (code ++ rest)

abbrev pub formats_of : List EncodedParam → List ℕ
formats_of [] = []
formats_of (p ∷ ps) = p.format ∷ formats_of ps

abbrev pub values_of : List EncodedParam → List (Option Bytes)
values_of [] = []
values_of (p ∷ ps) = p.bytes ∷ values_of ps

unfoldable pub param_value : Option Bytes → Result Bytes
param_value none = i32 (negsuc 0)
param_value (some b) = do len ← i32 (pos (length b)); ok (len ++ b)

unfoldable pub param_values : List (Option Bytes) → Result Bytes
param_values [] = ok []
param_values (v ∷ vs) = do value ← param_value v; rest ← param_values vs; ok (value ++ rest)

unfoldable pub bind : Text → Text → List EncodedParam → ℕ → Result Bytes
bind portal_name statement_name params result_format = do
  throw_if (ltb 65535 (length params)) (too_many_parameters (length params))
  count ← i16 (length params)
  formats ← format_codes (formats_of params)
  values ← param_values (values_of params)
  one ← i16 1
  result ← i16 result_format
  msg b'B' (
      cstr portal_name
      ++ (cstr statement_name ++ (count ++ (formats ++ (count ++ (values ++ (one ++ result)))))))

-- `kind` is 'S' for a prepared statement and 'P' for a portal.
pub data Target : Type 0 where
  statement portal : Target

abbrev pub target_byte : Target → ℕ
target_byte statement = b'S'
target_byte portal = b'P'

unfoldable pub describe : Target → Text → Result Bytes
describe kind name = msg b'D' (target_byte kind ∷ cstr name)

unfoldable pub execute : Text → ℤ → Result Bytes
execute name max_rows = do max ← i32 max_rows; msg b'E' (cstr name ++ max)

unfoldable pub close : Target → Text → Result Bytes
close kind name = msg b'C' (target_byte kind ∷ cstr name)

unfoldable pub sync : Result Bytes
sync = msg b'S' []

unfoldable pub flush : Result Bytes
flush = msg b'H' []

unfoldable pub terminate : Result Bytes
terminate = msg b'X' []

unfoldable pub copy_fail : Text → Result Bytes
copy_fail reason = msg b'f' (cstr reason)

unfoldable pub ssl_request : Result Bytes
ssl_request = do len ← i32 (pos 8); code ← i32 (pos 80877103); ok (len ++ code)

unfoldable pub cancel_request : ℤ → ℤ → Result Bytes
cancel_request pid secret = do
  len ← i32 (pos 16)
  code ← i32 (pos 80877102)
  pid_bytes ← i32 pid
  secret_bytes ← i32 secret
  ok (len ++ (code ++ (pid_bytes ++ secret_bytes)))
