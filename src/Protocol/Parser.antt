-- ===== src/Protocol/Parser.antt =====
-- The class `Parser` of src/protocol.ts: socket chunks in, complete backend messages out.
pub mod Front
pub mod Chunks
pub mod Outcome
pub mod Division
pub mod RoundTrip
use minipg.Base.{
  ℕ, zero, suc, ℤ, pos, negsuc, ◌+◌, ◌-◌, ◌≡◌, Option, none, some, List, [], ◌∷◌, ◌++◌, length,
  take, drop, get_elem?, ltb, ◌==◌, if◌then◌else◌,
}
use minipg.Buffer.{Bytes, read_int32}
use minipg.Protocol.Result.{
  Error, Result, ok, err, ◌>>=◌, in_range, invalid_message_length, out_of_range,
}

pub record RawMessage : Type 0 where
  pub type : ℕ
  pub body : Bytes

pub record Parser : Type 0 where
  pub buf : Bytes

-- `buf[off]!`, read only where the buffer is long enough.
abbrev pub or_zero : Option ℕ → ℕ
or_zero none = 0
or_zero (some b) = b

abbrev pub byte_at : Bytes → ℕ → ℕ
byte_at buf off = or_zero (get_elem? buf off)

-- The rest of one round, once the length word is read: the message and how far it reaches, or
-- `none` where it is not complete yet.
unfoldable pub complete : Bytes → ℕ → ℤ → Result (Option (RawMessage × ℕ))
complete buf off (negsuc n) = err (invalid_message_length (negsuc n))
complete buf off (pos len) =
    if ltb len 4
    then err (invalid_message_length (pos len))
    else if ltb (length buf - off) (len + 1)
    then ok none
    else ok (
        some (
          record { type = byte_at buf off; body = take (len + 1 - 5) (drop (off + 5) buf) },
          len + 1,
        ))

unfoldable pub frame_at : Bytes → ℕ → Result (Option (RawMessage × ℕ))
frame_at buf off =
    if ltb (length buf - off) 5
    then ok none
    else (in_range (read_int32 buf (off + 1)) >>= complete buf off)

-- How the loop ends: the messages and the position after them.
pub data Scan {ℓ} (P : Type ℓ) : Type ℓ where
  scanned : List RawMessage → P → Scan P
  failed : Error → Scan P
  out_of_fuel : Scan P

abbrev pub prepend {ℓ} : {P : Type ℓ} → List RawMessage → Scan P → Scan P
prepend ms (scanned ns p) = scanned (ms ++ ns) p
prepend ms (failed e) = failed e
prepend ms out_of_fuel = out_of_fuel

unfoldable pub scan_from : ℕ → Bytes → ℕ → Scan ℕ
scan_from zero buf off = out_of_fuel
scan_from (suc fuel) buf off = elim (frame_at buf off) [
  | err e ↦ failed e
  | ok none ↦ scanned [] off
  | ok (some (m, total)) ↦ prepend (m ∷ []) (scan_from fuel buf (off + total))
]

-- What `push` returns, beside the parser that it leaves. The buffer takes the chunk in before the
-- loop, so it keeps it when the loop throws; `hangs` is a loop that does not end.
pub data Pushed : Type 0 where
  returned : List RawMessage → Parser → Pushed
  threw : Error → Parser → Pushed
  hangs : Pushed

abbrev finish : Bytes → Scan ℕ → Pushed
finish buf (scanned out off) =
    returned out (record { buf = if off == length buf then [] else drop off buf })
finish buf (failed e) = threw e (record { buf = buf })
finish buf out_of_fuel = hangs

-- Each message takes five bytes at least, so `length buf` rounds find them all.
unfoldable pub push : Parser → Bytes → Pushed
push p chunk = let buf = p.buf ++ chunk in finish buf (scan_from (suc (length buf)) buf 0)

abbrev pub new_parser : Parser
new_parser = record { buf = [] }
