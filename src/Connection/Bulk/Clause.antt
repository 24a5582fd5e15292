-- ===== src/Connection/Bulk/Clause.antt =====
-- The text form of a transaction's options cannot add a statement.
use minipg.Base.{
  ℕ, ◌≤◌, ◌≡◌, refl, sym, subst, true, false, [], ◌∷◌, ◌++◌, ◌==◌, if◌then◌else◌, if-split, All,
  Bool-cases, inl, inr, leb, leb→le, arith,
}
use minipg.Buffer.{Text}
use minipg.Connection.Bulk.{
  is_between, is_kept, keep, trim_start, trim_end, with_clause, begin_string, begin, text,
  begin_clause,
}

-- The code of a letter of ASCII, or of the space.
pub data IsWord : ℕ → Type 0 where
  lower : {c : ℕ} → 97 ≤ c → c ≤ 122 → IsWord c
  upper : {c : ℕ} → 65 ≤ c → c ≤ 90 → IsWord c
  space : IsWord 32

is_kept-IsWord : (c : ℕ) → is_kept c ≡ true → IsWord c
unfolding is_kept is_between
is_kept-IsWord c h = elim (Bool-cases (is_between b'a' b'z' c)) [
  | inl l ↦ lower (ground (arith, l)) (ground (arith, l))
  | inr l ↦ elim (Bool-cases (is_between b'A' b'Z' c)) [
    | inl u ↦ upper (ground (arith, u)) (ground (arith, u))
    | inr u ↦ subst IsWord (sym (is_space h l u)) space
  ]
]
  where
    is_space :
        is_kept c ≡ true → is_between b'a' b'z' c ≡ false → is_between b'A' b'Z' c ≡ false → c ≡ 32
    is_space k l u = ground (arith, k, l, u)

keep-IsWord : (s : Text) → All IsWord (keep s)
unfolding keep
keep-IsWord [] = tt
keep-IsWord (c ∷ s) =
    if-split (All IsWord) (is_kept c) (λ e. (is_kept-IsWord c e, keep-IsWord s))
      (λ e. keep-IsWord s)

trim_start-IsWord : (s : Text) → All IsWord s → All IsWord (trim_start s)
unfolding trim_start
trim_start-IsWord [] h = h
trim_start-IsWord (c ∷ s) h =
    if-split (All IsWord) (c == b' ') (λ e. trim_start-IsWord s h.1) (λ e. h)

trim_end-IsWord : (s : Text) → All IsWord s → All IsWord (trim_end s)
unfolding trim_end
trim_end-IsWord [] h = h
trim_end-IsWord (c ∷ s) h = trimmed (trim_end s) (trim_end-IsWord s h.1)
  where
    trimmed :
        (rest : Text)
        → All IsWord rest
        → All IsWord (elim rest [ [] ↦ (if c == b' ' then [] else c ∷ []) | d ∷ t ↦ c ∷ d ∷ t ])
    trimmed [] k = if-split (All IsWord) (c == b' ') (λ e. tt) (λ e. (h.0, tt))
    trimmed (d ∷ t) k = (h.0, k)

begin-IsWord : (s : Text) → All IsWord s → All IsWord (begin ++ s)
begin-IsWord s h = (
  letter refl refl,
  (letter refl refl, (letter refl refl, (letter refl refl, (letter refl refl, h)))),
)
  where
    letter : {c : ℕ} → leb 97 c ≡ true → leb c 122 ≡ true → IsWord c
    letter p q = lower (leb→le _ _ p) (leb→le _ _ q)

with_clause-IsWord : (s : Text) → All IsWord s → All IsWord (with_clause s)
unfolding with_clause
with_clause-IsWord [] h = begin-IsWord [] tt
with_clause-IsWord (c ∷ s) h = begin-IsWord (b' ' ∷ c ∷ s) (space, h)

-- Whatever text a caller gives as the options of a transaction, the statement that begins it consists
-- of letters of ASCII and spaces: no semicolon, quote or other sign.
pub begin_clause-IsWord : (s : Text) → All IsWord (begin_clause (text s))
unfolding begin_clause begin_string
begin_clause-IsWord s =
    with_clause-IsWord (trim_end (trim_start (keep s)))
      (trim_end-IsWord (trim_start (keep s)) (trim_start-IsWord (keep s) (keep-IsWord s)))
