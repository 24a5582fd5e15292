-- ===== src/Buffer/Memory.antt =====
-- Writes into memory of a fixed size: what does not fit is dropped, and the size never changes.
use native.Mathlib.Nat.{zero-add, suc-add}
use minipg.Base.{ℕ, zero, suc, ◌+◌, ◌≤◌, ◌≡◌, refl, ap, List, [], ◌∷◌, ◌++◌, arith, length, take}

abbrev pub Bytes : Type 0
Bytes = List ℕ

-- `bs` written from offset `off` on, as `target.copy` and `buf[off] = b` do.
unfoldable pub overwrite : Bytes → ℕ → Bytes → Bytes
overwrite [] off bs = []
overwrite (x ∷ xs) zero [] = x ∷ xs
overwrite (x ∷ xs) zero (b ∷ bs) = b ∷ overwrite xs zero bs
overwrite (x ∷ xs) (suc off) bs = x ∷ overwrite xs off bs

pub length-overwrite :
    (mem : Bytes) (off : ℕ) (bs : Bytes) → length (overwrite mem off bs) ≡ length mem
unfolding overwrite
length-overwrite [] off bs = refl
length-overwrite (x ∷ xs) zero [] = refl
length-overwrite (x ∷ xs) zero (b ∷ bs) = ap suc (length-overwrite xs zero bs)
length-overwrite (x ∷ xs) (suc off) bs = ap suc (length-overwrite xs off bs)

-- What lies before the offset stays.
pub take-overwrite :
    (n : ℕ) (mem : Bytes) (off : ℕ) (bs : Bytes)
    → n ≤ off
    → take n (overwrite mem off bs) ≡ take n mem
unfolding overwrite
take-overwrite zero mem off bs h = refl
take-overwrite (suc n) [] off bs h = refl
take-overwrite (suc n) (x ∷ xs) zero bs h = absurd (omega arith)
take-overwrite (suc n) (x ∷ xs) (suc off) bs h =
    ap (◌∷◌ x) (take-overwrite n xs off bs (omega arith))

-- A write that fits splits the memory in three.
pub overwrite_fits :
    (pre old rest bs : Bytes)
    → length bs ≡ length old
    → overwrite (pre ++ (old ++ rest)) (length pre) bs ≡ pre ++ (bs ++ rest)
unfolding overwrite
overwrite_fits [] [] [] [] h = refl
overwrite_fits [] [] (y ∷ rest) [] h = refl
overwrite_fits [] [] rest (b ∷ bs) h = absurd (omega arith)
overwrite_fits [] (o ∷ old) rest [] h = absurd (omega arith)
overwrite_fits [] (o ∷ old) rest (b ∷ bs) h =
    ap (◌∷◌ b) (overwrite_fits [] old rest bs (omega arith))
overwrite_fits (p ∷ pre) old rest bs h = ap (◌∷◌ p) (overwrite_fits pre old rest bs h)

-- A write inside a prefix is a write into the prefix.
pub take-overwrite_inside :
    (n : ℕ) (mem : Bytes) (off : ℕ) (bs : Bytes)
    → off + length bs ≤ n
    → take n (overwrite mem off bs) ≡ overwrite (take n mem) off bs
unfolding overwrite
take-overwrite_inside zero mem off bs h = refl
take-overwrite_inside (suc n) [] off bs h = refl
take-overwrite_inside (suc n) (x ∷ xs) zero [] h = refl
take-overwrite_inside (suc n) (x ∷ xs) zero (b ∷ bs) h =
    ap (◌∷◌ b) (take-overwrite_inside n xs zero bs (omega arith))
take-overwrite_inside (suc n) (x ∷ xs) (suc off) bs h =
    ap (◌∷◌ x) (take-overwrite_inside n xs off bs (omega arith))

take-overwrite_front :
    (ys cs : Bytes) → length cs ≤ length ys → take (length cs) (overwrite ys 0 cs) ≡ cs
unfolding overwrite
take-overwrite_front ys [] k = refl
take-overwrite_front [] (c ∷ cs) k = absurd (omega arith)
take-overwrite_front (y ∷ ys) (c ∷ cs) k = ap (◌∷◌ c) (take-overwrite_front ys cs (omega arith))

-- A write that fits ends the written prefix by exactly what was written.
pub take-overwrite_append :
    (mem : Bytes) (off : ℕ) (bs : Bytes)
    → off + length bs ≤ length mem
    → take (off + length bs) (overwrite mem off bs) ≡ take off mem ++ bs
unfolding overwrite
take-overwrite_append mem zero bs h = rw zero-add (take-overwrite_front mem bs (omega arith))
take-overwrite_append [] (suc off) bs h = absurd (omega arith)
take-overwrite_append (x ∷ xs) (suc off) bs h =
    rw suc-add (ap (◌∷◌ x) (take-overwrite_append xs off bs (omega arith)))
