-- ===== src/Base/Members.antt =====
-- Lists of numbers as sets: membership, removal of the first occurrence, and how often one occurs.
use Prim.Native.Nat.{ℕ, ◌+◌, ◌≤◌}
use mathlib.Core.Path.{◌≡◌}
use mathlib.Core.Bool.{Bool, true, false}
use mathlib.Core.List.{List, [], ◌∷◌}
use native.Mathlib.Omega.{arith}
use minipg.Base.Tests.{◌==◌, if◌then◌else◌}

unfoldable pub has : List ℕ → ℕ → Bool
has [] c = false
has (x ∷ xs) c = if x == c then true else has xs c

unfoldable pub remove : ℕ → List ℕ → List ℕ
remove c [] = []
remove c (x ∷ xs) = if x == c then xs else x ∷ remove c xs

-- 1 where the two are the same.
abbrev pub one : ℕ → ℕ → ℕ
one x c = if x == c then 1 else 0

unfoldable pub count : ℕ → List ℕ → ℕ
count c [] = 0
count c (x ∷ xs) = one x c + count c xs

pub count-remove :
    (c x : ℕ) (xs : List ℕ) → has xs x ≡ true → count c xs ≡ one x c + count c (remove x xs)
unfolding count has remove
count-remove c x [] h = cc
count-remove c x (y ∷ xs) h = ground (arith, count-remove c x xs)

pub count-remove_le : (c x : ℕ) (xs : List ℕ) → count c (remove x xs) ≤ count c xs
unfolding count remove
count-remove_le c x [] = omega arith
count-remove_le c x (y ∷ xs) = ground (arith, count-remove_le c x xs)

-- What is not in the list occurs no times in it.
pub count_absent : (c : ℕ) (xs : List ℕ) → has xs c ≡ false → count c xs ≡ 0
unfolding count has
count_absent c [] h = omega arith
count_absent c (x ∷ xs) h = ground (arith, count_absent c xs)
