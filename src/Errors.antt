-- ===== src/Errors.antt =====
-- src/errors.ts: the fields of an ErrorResponse or NoticeResponse.
pub mod RoundTrip
use minipg.Base.{
  ℕ, zero, suc, ◌+◌, ◌-◌, ◌≡◌, Bool, true, false, Option, none, some, List, [], ◌∷◌, ◌++◌, length,
  drop, take, ltb, ◌==◌, if◌then◌else◌,
}
use minipg.Buffer.{Bytes, Text}
use minipg.Protocol.Parser.{byte_at}

-- The property that a field code names; a code that `FIELD` does not list names itself.
pub data Key : Type 0 where
  severity_local severity code message detail hint position : Key
  internal_position internal_query where_ schema table column : Key
  data_type constraint file line routine : Key
  other : ℕ → Key

unfoldable pub field_key : ℕ → Key
field_key c =
    if c == b'S'
    then severity_local
    else if c == b'V'
    then severity
    else if c == b'C'
    then code
    else if c == b'M'
    then message
    else if c == b'D'
    then detail
    else if c == b'H'
    then hint
    else if c == b'P'
    then position
    else if c == b'p'
    then internal_position
    else if c == b'q'
    then internal_query
    else if c == b'W'
    then where_
    else if c == b's'
    then schema
    else if c == b't'
    then table
    else if c == b'c'
    then column
    else if c == b'd'
    then data_type
    else if c == b'n'
    then constraint
    else if c == b'F'
    then file
    else if c == b'L'
    then line
    else if c == b'R'
    then routine
    else other c

-- How far `while (end < body.length && body[end] !== 0) end += 1` goes.
unfoldable pub value_length : Bytes → ℕ
value_length [] = 0
value_length (c ∷ cs) = let more = value_length cs in if c == 0 then 0 else suc more

-- The object is the list of its assignments, the newest first.
module _ (to_text : Bytes → Text) where
  -- The loop from offset `i` on; the fuel is the number of bytes that are left, and one more.
  unfoldable pub fields_loop : ℕ → Bytes → ℕ → List (Key × Text) → Option (List (Key × Text))
  fields_loop zero body i out = none
  fields_loop (suc fuel) body i out =
      let n = value_length (drop (i + 1) body) in
      let assigned : Key × Text =
        (field_key (byte_at body i), to_text (take n (drop (i + 1) body))) in
      let more = fields_loop fuel body (i + 1 + n + 1) (assigned ∷ out) in
      if ltb i (length body) then (if byte_at body i == 0 then some out else more) else some out

  unfoldable pub parse_error_fields : Bytes → Option (List (Key × Text))
  parse_error_fields body = fields_loop (suc (length body)) body 0 []
