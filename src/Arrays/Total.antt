-- ===== src/Arrays/Total.antt =====
-- How far the parser of array literals moves on in each round.
use minipg.Base.{
  ℕ, zero, suc, ◌<◌, ◌≤◌, ◌≡◌, refl, false, none, some, [], ◌∷◌, length, drop, ◌==◌, arith,
  length-drop, ◌⊎◌, Bool-cases, inl, inr, if-split,
}
use minipg.Buffer.{Text}
use minipg.Arrays.{
  Decoded, gives, throws, Reading, read, stopped, out_of_fuel, Outcome, returned, threw, hangs,
  as_leaf, same_text, null_text, Parsed, array, empty, quoted, unquoted, Token, closing, separator,
  opening, quote, bare, token, after_equals, or_else, skip_dimensions, bare_leaf, prepend, elements,
  only_elements, parse_array_literal,
}

length-quoted : (t : Text) → length (quoted t).1 ≤ length t
unfolding quoted
length-quoted [] = omega arith
length-quoted (c ∷ []) = ground arith
length-quoted (c ∷ d ∷ t) = elim (Bool-cases (c == b'\\')) [
  | inl e ↦ rw e (omega (arith, length-quoted t))
  | inr e ↦ elim (Bool-cases (c == b'"')) [
    | inl q ↦ rw (e, q) (omega arith)
    | inr q ↦ rw (e, q) (omega (arith, length-quoted (d ∷ t)))
  ]
]

length-unquoted : (delim : ℕ) (t : Text) → length (unquoted delim t).1 ≤ length t
unfolding unquoted
length-unquoted delim [] = omega arith
length-unquoted delim (c ∷ t) = elim (Bool-cases (c == delim)) [
  | inl e ↦ rw e (omega arith)
  | inr e ↦ elim (Bool-cases (c == b'}')) [
    | inl q ↦ rw (e, q) (omega arith)
    | inr q ↦ rw (e, q) (omega (arith, length-unquoted delim t))
  ]
]

-- An element without quotes takes its first unit.
length-unquoted_bare :
    (delim c : ℕ) (t : Text) → token delim c ≡ bare → length (unquoted delim (c ∷ t)).1 ≤ length t
unfolding unquoted token
length-unquoted_bare delim c t h =
    let e : (c == delim) ≡ false = ground (arith, h) in
    let q : (c == b'}') ≡ false = ground (arith, h) in rw (e, q) (length-unquoted delim t)

length-after_equals : (t : Text) → length (or_else t (after_equals t)) ≤ length t
unfolding after_equals
length-after_equals t = go t
  where
    behind :
        (u : Text)
        → (after_equals u ≡ none)
          ⊎ ((r : Text) × ((after_equals u ≡ some r) × (length r ≤ length u)))
    behind [] = inl refl
    behind (c ∷ u) = elim (Bool-cases (c == b'=')) [
      | inl e ↦ inr (u, (rw e, omega arith))
      | inr e ↦ elim (behind u) [
        | inl n ↦ inl (rw (e, n))
        | inr (r, n) ↦ inr (r, (rw (e, n.0), omega (arith, n.1)))
      ]
    ]

    go : (u : Text) → length (or_else u (after_equals u)) ≤ length u
    go u = elim (behind u) [ inl n ↦ rw n (omega arith) | inr (r, n) ↦ rw (n.0) (n.1) ]

length-skip_dimensions : (t : Text) → length (skip_dimensions t) ≤ length t
unfolding skip_dimensions
length-skip_dimensions [] = omega arith
length-skip_dimensions (c ∷ t) = elim (Bool-cases (c == b'[')) [
  | inl e ↦ rw e (length-after_equals (c ∷ t))
  | inr e ↦ rw e (omega arith)
]

module _ {E A : Type 0} (decode_leaf : Text → Decoded E A) (delim : ℕ) where
  -- The decoder of leaves throws this error on some text.
  abbrev pub IsRefused : E → Type 0
  IsRefused e = (s : Text) × (decode_leaf s ≡ throws e)

  abbrev Sound : Decoded E (Parsed A) → Type 0
  Sound (gives v) = Unit {0}
  Sound (throws e) = IsRefused e

  abbrev Within : ℕ → Reading E A → Type 0
  Within n (read vs rest) = length rest ≤ n
  Within n (stopped e) = IsRefused e
  Within n out_of_fuel = ⊥

  as_leaf-Sound : (s : Text) → Sound (as_leaf (decode_leaf s))
  as_leaf-Sound s = go (decode_leaf s) refl
    where
      go : (v : Decoded E A) → decode_leaf s ≡ v → Sound (as_leaf v)
      go (gives a) h = tt
      go (throws e) h = (s, h)

  bare_leaf-Sound : (s : Text) → Sound (bare_leaf decode_leaf delim s)
  unfolding bare_leaf
  bare_leaf-Sound s = if-split Sound (same_text s null_text) (λ e. tt) (λ e. as_leaf-Sound s)

  widened : (m n : ℕ) (o : Reading E A) → m ≤ n → Within m o → Within n o
  widened m n (read vs rest) k h = omega (arith, k, h)
  widened m n (stopped e) k h = h
  widened m n out_of_fuel k h = h

  prepend-Within :
      (v : Decoded E (Parsed A)) (m n : ℕ) (o : Reading E A)
      → m ≤ n
      → Sound v
      → Within m o
      → Within n (prepend v o)
  prepend-Within (throws e) m n o k s h = s
  prepend-Within (gives v) m n (read vs rest) k s h = omega (arith, k, h)
  prepend-Within (gives v) m n (stopped e) k s h = h
  prepend-Within (gives v) m n out_of_fuel k s h = h

  -- The array inside, and then what follows it.
  nested-Within :
      (n : ℕ) (follow : Text → Reading E A) (o : Reading E A)
      → ((u : Text) → length u ≤ n → Within (length u) (follow u))
      → Within n o
      → Within n (elim o [
        | out_of_fuel ↦ out_of_fuel
        | stopped e ↦ stopped e
        | read inner more ↦ prepend (gives (array inner)) (follow more)
      ])
  nested-Within n follow (read inner more) later h =
      prepend-Within (gives (array inner)) (length more) n (follow more) h tt (later more h)
  nested-Within n follow (stopped e) later h = h
  nested-Within n follow out_of_fuel later h = h

  elements_total :
      (fuel : ℕ) (t : Text)
      → length t < fuel
      → Within (length t) (elements decode_leaf delim fuel t)
  unfolding elements
  elements_total zero t k = absurd (omega (arith, k))
  elements_total (suc fuel) [] k = omega arith
  elements_total (suc fuel) (c ∷ t) k =
      go (token delim c) refl (λ u l. elements_total fuel u (omega (arith, k, l)))
    where
      next : Text → Reading E A
      next = elements decode_leaf delim fuel

      go :
          (tok : Token)
          → token delim c ≡ tok
          → ((u : Text) → length u ≤ length t → Within (length u) (next u))
          → Within (suc (length t)) (elim tok [
            | closing ↦ read empty t
            | separator ↦ next t
            | opening ↦ elim (next t) [
              | out_of_fuel ↦ out_of_fuel
              | stopped e ↦ stopped e
              | read inner more ↦ prepend (gives (array inner)) (next more)
            ]
            | quote ↦ prepend (as_leaf (decode_leaf (quoted t).0)) (next (quoted t).1)
            | bare ↦
                prepend
                  (bare_leaf decode_leaf delim (unquoted delim (c ∷ t)).0)
                  (next (unquoted delim (c ∷ t)).1)
          ])
      go closing e within = omega arith
      go separator e within =
          widened (length t) (suc (length t)) (next t) (omega arith) (within t (omega arith))
      go opening e within =
          widened (length t) (suc (length t)) _ (omega arith)
            (nested-Within (length t) next (next t) within (within t (omega arith)))
      go quote e within =
          prepend-Within _ (length (quoted t).1) _ _ (omega (arith, length-quoted t))
            (as_leaf-Sound (quoted t).0) (within (quoted t).1 (length-quoted t))
      go bare e within =
          let l = length-unquoted_bare delim c t e in
          prepend-Within _ (length (unquoted delim (c ∷ t)).1) _ _ (omega (arith, l))
            (bare_leaf-Sound (unquoted delim (c ∷ t)).0) (within (unquoted delim (c ∷ t)).1 l)

  abbrev pub Ends : Outcome E A → Type 0
  Ends (returned vs) = Unit {0}
  Ends (threw e) = IsRefused e
  Ends hangs = ⊥

  only_elements-Ends : (n : ℕ) (o : Reading E A) → Within n o → Ends (only_elements o)
  only_elements-Ends n (read vs rest) h = tt
  only_elements-Ends n (stopped e) h = h
  only_elements-Ends n out_of_fuel h = h

  -- `parseArrayLiteral` ends on every text, whatever the delimiter: it returns elements, or it throws
  -- an error, which is then one that the decoder of leaves throws on some text.
  pub parse_array_literal-Ends : (t : Text) → Ends (parse_array_literal decode_leaf delim t)
  unfolding parse_array_literal
  parse_array_literal-Ends t =
      let u : Text = drop 1 (skip_dimensions t) in
      only_elements-Ends (length u) (elements decode_leaf delim (suc (length t)) u) (
        elements_total (suc (length t)) u
          (omega (arith, length-drop 1 (skip_dimensions t), length-skip_dimensions t)))
