-- ===== src/Protocol/Rows.antt =====
-- The body decoders of src/protocol.ts: RowDescription, ParameterDescription and DataRow.
pub mod DataRow
pub mod Description
use minipg.Base.{
  ℕ, zero, suc, ℤ, pos, negsuc, ◌+◌, ◌-◌, ◌*◌, ◌≡◌, Option, none, some, List, [], ◌∷◌, ◌++◌, length,
  take, drop, ltb, leb, ◌==◌, if◌then◌else◌, min,
}
use minipg.Buffer.{Bytes, Text, read_int16, read_int32}

-- A decoder returns, throws the runtime's RangeError, or goes on for ever.
pub data Decoded {ℓ} (A : Type ℓ) : Type ℓ where
  value : A → Decoded A
  range_error : Decoded A
  loops : Decoded A

infixl 5 ◌>>=◌
abbrev pub ◌>>=◌ {ℓ κ} : {A : Type ℓ} {B : Type κ} → Decoded A → (A → Decoded B) → Decoded B
decoded >>= next = elim decoded [ value a ↦ next a | range_error ↦ range_error | loops ↦ loops ]

-- A read out of range throws.
abbrev pub read {ℓ} : {A : Type ℓ} → Option A → Decoded A
read none = range_error
read (some z) = value z

abbrev pub int16_at : Bytes → ℕ → Decoded ℤ
int16_at b off = read (read_int16 b off)

abbrev pub int32_at : Bytes → ℕ → Decoded ℤ
int32_at b off = read (read_int32 b off)

-- `new Array(n)` throws on a negative length.
abbrev pub array_size : ℤ → Decoded ℕ
array_size (pos n) = value n
array_size (negsuc n) = range_error

-- Where a loop counts up to `n`, a negative bound means no rounds.
abbrev pub loop_rounds : ℤ → ℕ
loop_rounds (pos n) = n
loop_rounds (negsuc n) = 0

-- `off + len`, or `none` where that is negative.
abbrev pub moved : ℕ → ℤ → Option ℕ
moved off (pos n) = some (off + n)
moved off (negsuc n) = if ltb n off then some (off - suc n) else none

-- `b.subarray(first, first + len)`: a negative end counts from the end of the buffer, and an end in
-- front of the beginning gives nothing.
unfoldable pub sub_array : Bytes → ℕ → ℤ → Bytes
sub_array b first (pos n) = take n (drop first b)
sub_array b first (negsuc n) =
    if ltb n first then [] else take (length b - (suc n - first) - first) (drop first b)

-- `parseDataRow`. An offset that has become negative makes the next read throw.
unfoldable pub cells_from : ℕ → Bytes → Option ℕ → Decoded (List (Option Bytes))
cells_from zero body off = value []
cells_from (suc n) body none = range_error
cells_from (suc n) body (some off) = do
  len ← int32_at body off
  elim len [
    | pos k ↦ do
      rest ← cells_from n body (moved (off + 4) (pos k))
      value (some (sub_array body (off + 4) (pos k)) ∷ rest)
    | negsuc zero ↦ do rest ← cells_from n body (some (off + 4)); value (none ∷ rest)
    | negsuc (suc k) ↦ do
      rest ← cells_from n body (moved (off + 4) (negsuc (suc k)))
      value (some (sub_array body (off + 4) (negsuc (suc k))) ∷ rest)
  ]

unfoldable pub parse_data_row : Bytes → Decoded (List (Option Bytes))
parse_data_row body = do count ← int16_at body 0; n ← array_size count; cells_from n body (some 2)

-- `parseParameterDescription`
unfoldable pub oids_from : ℕ → Bytes → ℕ → Decoded (List ℤ)
oids_from zero body i = value []
oids_from (suc n) body i = do
  oid ← int32_at body (2 + i * 4)
  rest ← oids_from n body (suc i)
  value (oid ∷ rest)

unfoldable pub parse_parameter_description : Bytes → Decoded (List ℤ)
parse_parameter_description body = do
  count ← int16_at body 0
  n ← array_size count
  oids_from n body 0

pub record Field : Type 0 where
  pub name : Text
  pub table_oid : ℤ
  pub column_id : ℤ
  pub data_type_oid : ℤ
  pub data_type_size : ℤ
  pub type_modifier : ℤ
  pub format : ℤ

-- How many bytes stand in front of the first zero byte.
unfoldable pub until_nul : Bytes → Option ℕ
until_nul [] = none
until_nul (c ∷ cs) =
    let more = until_nul cs in
    if c == 0 then some 0 else (elim more [ none ↦ none | some n ↦ some (suc n) ])

-- `while (body[end] !== 0) end += 1` runs past the end of the body for ever.
abbrev pub found : ℕ → Option ℕ → Decoded ℕ
found off none = loops
found off (some n) = value (off + n)

abbrev pub nul_from : Bytes → ℕ → Decoded ℕ
nul_from body off = found off (until_nul (drop off body))

-- `body.toString('utf8')` is the runtime's decoder.
module _ (to_text : Bytes → Text) where
  unfoldable pub fields_from : ℕ → Bytes → ℕ → Decoded (List Field)
  fields_from zero body off = value []
  fields_from (suc n) body off = do
    end ← nul_from body off
    let name = to_text (take (end - off) (drop off body))
    let at = end + 1
    table ← int32_at body at
    column ← int16_at body (at + 4)
    type ← int32_at body (at + 6)
    size ← int16_at body (at + 10)
    modifier ← int32_at body (at + 12)
    format ← int16_at body (at + 16)
    rest ← fields_from n body (at + 18)
    value (
        record {
          name = name;
          table_oid = table;
          column_id = column;
          data_type_oid = type;
          data_type_size = size;
          type_modifier = modifier;
          format = format;
        }
        ∷ rest)

  unfoldable pub parse_row_description : Bytes → Decoded (List Field)
  parse_row_description body = do count ← int16_at body 0; fields_from (loop_rounds count) body 2
