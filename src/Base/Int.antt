-- ===== src/Base/Int.antt =====
-- Signed integers over the native numbers, as the wire carries them.
use Prim.Native.Nat.{ℕ, ◌+◌, ◌-◌}
use mathlib.Core.Bool.{Bool}
use minipg.Base.Tests.{ltb, if◌then◌else◌}

-- `negsuc n` is -(n + 1).
pub data ℤ : Type 0 where
  pos : ℕ → ℤ
  negsuc : ℕ → ℤ

-- The two's complement pattern of an integer in w bits, given 2 ^ w.
abbrev pub to_word : ℕ → ℤ → ℕ
to_word m (pos n) = n
to_word m (negsuc n) = m - 1 - n

-- The integer that a pattern below 2 ^ w stands for, given 2 ^ (w - 1).
abbrev pub of_word : ℕ → ℕ → ℤ
of_word half u = if ltb u half then pos u else negsuc (half + half - 1 - u)

-- Whether an integer fits the two's complement words, given 2 ^ (w - 1).
abbrev pub fits_word : ℕ → ℤ → Bool
fits_word half (pos n) = ltb n half
fits_word half (negsuc n) = ltb n half
