-- ===== src/Arrays/Element.antt =====
-- The elements of array literals: what needs no quotes, and what the parser makes of one element.
use minipg.Base.{
  ℕ, suc, ◌<◌, ◌≤◌, ◌≡◌, refl, sym, ap, subst, ◌∙◌, Bool, true, false, ◌||◌, [], ◌∷◌, ◌++◌, length,
  ◌==◌, All, arith, length-append, Bool-cases, inl, inr,
}
use minipg.Buffer.{Text}
use minipg.Arrays.{
  Value, null, numeric, string, boolean, nested, Values, nil, cons, escape_unit, escape, null_text,
  item, items, later, same_text, add, quoted, unquoted, bare, token,
}

-- A text that needs no quotes: what `String` gives for a number.
pub record IsBare (t : Text) : Type 0 where
  pub nonempty : 0 < length t
  pub units_bare : All (λ c. token b',' c ≡ bare) t
  pub not_null : same_text t null_text ≡ false

unfoldable mutual
  pub IsPlain : Value → Type 0
  IsPlain null = Unit {0}
  IsPlain (numeric t) = IsBare t
  IsPlain (string s) = Unit {0}
  IsPlain (boolean b) = Unit {0}
  IsPlain (nested vs) = ArePlain vs

  pub ArePlain : Values → Type 0
  ArePlain nil = Unit {0}
  ArePlain (cons v vs) = IsPlain v × ArePlain vs

-- The quoted element.
pub quoted_plain :
    (c : ℕ) (t : Text)
    → (c == b'\\') ≡ false
    → (c == b'"') ≡ false
    → quoted (c ∷ t) ≡ add (c ∷ []) (quoted t)
unfolding quoted
quoted_plain c [] h k = rw (h, k)
quoted_plain c (d ∷ t) h k = rw (h, k)

pub quoted_end : (t : Text) → quoted (b'"' ∷ t) ≡ ([], t)
unfolding quoted
quoted_end [] = refl
quoted_end (d ∷ t) = refl

pub quoted-escape : (s rest : Text) → quoted (escape s ++ b'"' ∷ rest) ≡ (s, rest)
unfolding escape escape_unit quoted
quoted-escape [] rest = quoted_end rest
quoted-escape (x ∷ xs) rest = elim (Bool-cases (x == b'\\')) [
  | inl e ↦ by_unit b'\\' (ground (arith, e)) (ap (add (b'\\' ∷ [])) (quoted-escape xs rest))
  | inr e ↦ elim (Bool-cases (x == b'"')) [
    | inl q ↦ by_unit b'"' (ground (arith, q)) (ap (add (b'"' ∷ [])) (quoted-escape xs rest))
    | inr q ↦
        rw (e, q)
          (quoted_plain x (escape xs ++ b'"' ∷ rest) e q
            ∙ ap (add (x ∷ [])) (quoted-escape xs rest))
  ]
]
  where
    by_unit :
        (c : ℕ)
        → x ≡ c
        → quoted (escape (c ∷ xs) ++ b'"' ∷ rest) ≡ (c ∷ xs, rest)
        → quoted (escape (x ∷ xs) ++ b'"' ∷ rest) ≡ (x ∷ xs, rest)
    by_unit c p h = subst (λ y. quoted (escape (y ∷ xs) ++ b'"' ∷ rest) ≡ (y ∷ xs, rest)) (sym p) h

-- A bare unit passes the tests of the loop.
pub bare_unit : (c : ℕ) → token b',' c ≡ bare → ((c == b',') ≡ false) × ((c == b'}') ≡ false)
unfolding token
bare_unit c h = (ground (arith, h), ground (arith, h))

unfoldable pub stops : Text → Bool
stops [] = false
stops (c ∷ r) = (c == b',') || (c == b'}')

pub unquoted-append :
    (t r : Text)
    → All (λ c. token b',' c ≡ bare) t
    → stops r ≡ true
    → unquoted b',' (t ++ r) ≡ (t, r)
unfolding unquoted token stops
unquoted-append [] [] h k = cc
unquoted-append [] (c ∷ r) h k = ground arith
unquoted-append (c ∷ t) r h k =
    rw ((bare_unit c h.0).0, (bare_unit c h.0).1) (ap (add (c ∷ [])) (unquoted-append t r h.1 k))

pub stops-later : (vs : Values) (rest : Text) → stops (later vs ++ b'}' ∷ rest) ≡ true
unfolding later stops
stops-later nil rest = refl
stops-later (cons v vs) rest = refl

abbrev pub inner : Value → Values
inner (nested ws) = ws
inner _ = nil

pub inner-ArePlain : (v : Value) → IsPlain v → ArePlain (inner v)
unfolding IsPlain
inner-ArePlain null h = tt
inner-ArePlain (numeric t) h = tt
inner-ArePlain (string s) h = tt
inner-ArePlain (boolean b) h = tt
inner-ArePlain (nested ws) h = h

pub length-item : (v : Value) → IsPlain v → 0 < length (item v)
unfolding item IsPlain
length-item null h = omega arith
length-item (numeric t) h = h.nonempty
length-item (string s) h = omega arith
length-item (boolean b) h = omega arith
length-item (nested ws) h = omega arith

pub length-later : (ws : Values) → length (later ws) ≤ suc (length (items ws))
unfolding items later
length-later nil = omega arith
length-later (cons w ws) = omega arith

pub length-inner : (v : Value) → length (later (inner v)) ≤ length (item v)
unfolding item later
length-inner null = omega arith
length-inner (numeric t) = omega arith
length-inner (string s) = omega arith
length-inner (boolean b) = omega arith
length-inner (nested ws) = omega (arith, length-later ws, length-append (items ws) (b'}' ∷ []))
