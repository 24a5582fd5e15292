-- ===== src/Buffer/Words.antt =====
-- Big-endian integers, as `writeUInt16BE`, `writeInt32BE`, `readInt16BE` and `readInt32BE` handle
-- them. A value or an offset out of range makes the runtime throw a RangeError, here `none`.
use minipg.Base.{
  ℕ, ◌+◌, ◌*◌, ◌/◌, ◌%◌, ◌<◌, ◌≡◌, true, Option, none, some, [], ◌∷◌, ◌++◌, arith, drop, ltb,
  if◌then◌else◌, ℤ, pos, negsuc, to_word, of_word, fits_word,
}
use minipg.Buffer.Memory.{Bytes}

abbrev pub word16 : ℕ → Bytes
word16 n = n / 256 % 256 ∷ n % 256 ∷ []

abbrev pub word32 : ℕ → Bytes
word32 n = n / 16777216 % 256 ∷ n / 65536 % 256 ∷ n / 256 % 256 ∷ n % 256 ∷ []

unfoldable pub uint16_be : ℕ → Option Bytes
uint16_be n = if ltb n 65536 then some (word16 n) else none

unfoldable pub int32_be : ℤ → Option Bytes
int32_be z = if fits_word 2147483648 z then some (word32 (to_word 4294967296 z)) else none

int16_front : Bytes → Option ℤ
int16_front (a ∷ b ∷ rest) = some (of_word 32768 (a * 256 + b))
int16_front _ = none

int32_front : Bytes → Option ℤ
int32_front (a ∷ b ∷ c ∷ d ∷ rest) =
    some (of_word 2147483648 (a * 16777216 + b * 65536 + c * 256 + d))
int32_front _ = none

unfoldable pub read_int16 : Bytes → ℕ → Option ℤ
unfolding int16_front
read_int16 b off = int16_front (drop off b)

unfoldable pub read_int32 : Bytes → ℕ → Option ℤ
unfolding int32_front
read_int32 b off = int32_front (drop off b)

pub read_int32-word32 :
    (z : ℤ) (rest : Bytes)
    → fits_word 2147483648 z ≡ true
    → read_int32 (word32 (to_word 4294967296 z) ++ rest) 0 ≡ some z
unfolding read_int32
read_int32-word32 (pos n) rest h = ground arith
read_int32-word32 (negsuc n) rest h = ground arith

pub read_int16-word16 :
    (n : ℕ) (rest : Bytes) → n < 32768 → read_int16 (word16 n ++ rest) 0 ≡ some (pos n)
unfolding read_int16
read_int16-word16 n rest h = ground arith
