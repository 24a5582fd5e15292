-- ===== src/Arrays/RoundTrip.antt =====
-- What the parser of array literals makes of the literals that the driver writes.
use minipg.Base.{
  ℕ, zero, suc, ◌+◌, ◌<◌, ◌≤◌, ◌≡◌, refl, ap, ◌∙◌, true, false, some, [], ◌∷◌, ◌++◌, length, ◌==◌,
  if◌then◌else◌, All, arith, append_assoc, length-append,
}
use minipg.Buffer.{Text}
use minipg.Arrays.{
  Value, null, numeric, string, boolean, nested, Values, nil, cons, escape, null_text, item, items,
  later, array_literal, Decoded, gives, throws, Reading, read, stopped, Outcome, returned, threw,
  as_leaf, Parsed, sql_null, array, Elements, empty, push, same_text, quoted, bare, token,
  after_equals, skip_dimensions, bare_leaf, prepend, elements, only_elements, parse_array_literal,
}
use minipg.Arrays.Element.{
  IsPlain, ArePlain, quoted-escape, unquoted-append, stops, stops-later, inner, inner-ArePlain,
  length-item, length-later, length-inner,
}

module _ {E A : Type 0} where
  abbrev pub as_array : Decoded E (Elements A) → Decoded E (Parsed A)
  as_array (gives ds) = gives (array ds)
  as_array (throws e) = throws e

  -- The first element that cannot be decoded decides.
  abbrev pub push_decoded : Decoded E (Parsed A) → Decoded E (Elements A) → Decoded E (Elements A)
  push_decoded (throws e) ds = throws e
  push_decoded (gives v) (gives ds) = gives (push v ds)
  push_decoded (gives v) (throws e) = throws e

  abbrev reading : Decoded E (Elements A) → Text → Reading E A
  reading (gives ds) rest = read ds rest
  reading (throws e) rest = stopped e

  abbrev pub outcome : Decoded E (Elements A) → Outcome E A
  outcome (gives ds) = returned ds
  outcome (throws e) = threw e

  prepend-reading :
      (v : Decoded E (Parsed A)) (ds : Decoded E (Elements A)) (r : Text)
      → prepend v (reading ds r) ≡ reading (push_decoded v ds) r
  prepend-reading (throws e) ds r = refl
  prepend-reading (gives v) (gives ds) r = refl
  prepend-reading (gives v) (throws e) r = refl

  only_elements-reading :
      (ds : Decoded E (Elements A)) (r : Text) → only_elements (reading ds r) ≡ outcome ds
  only_elements-reading (gives ds) r = refl
  only_elements-reading (throws e) r = refl

module _ {E A : Type 0} (decode_leaf : Text → Decoded E A) where
  unfoldable mutual
    pub decoded : Value → Decoded E (Parsed A)
    decoded null = gives sql_null
    decoded (numeric t) = as_leaf (decode_leaf t)
    decoded (string s) = as_leaf (decode_leaf s)
    decoded (boolean b) = as_leaf (decode_leaf ((if b then b't' else b'f') ∷ []))
    decoded (nested vs) = as_array (decoded_all vs)

    pub decoded_all : Values → Decoded E (Elements A)
    decoded_all nil = gives empty
    decoded_all (cons v vs) = push_decoded (decoded v) (decoded_all vs)

  abbrev from : ℕ → Text → Reading E A
  from = elements decode_leaf b','

  -- One element in front of a separator or a closing brace.
  bare_element :
      (f : ℕ) (t r : Text)
      → 0 < length t
      → All (λ c. token b',' c ≡ bare) t
      → stops r ≡ true
      → from (suc f) (t ++ r) ≡ prepend (bare_leaf decode_leaf b',' t) (from f r)
  unfolding elements
  bare_element f [] r n h k = absurd (omega (arith, n))
  bare_element f (c ∷ t) r n h k = rw (elements, h.0, unquoted-append (c ∷ t) r h k)

  quoted_element :
      (f : ℕ) (s r : Text)
      → from (suc f) (b'"' ∷ ((escape s ++ b'"' ∷ []) ++ r))
        ≡ prepend (as_leaf (decode_leaf s)) (from f r)
  unfolding elements token
  quoted_element f s r =
      ap (λ q. prepend (as_leaf (decode_leaf (q.0))) (from f (q.1)))
        (ap quoted (append_assoc (escape s) (b'"' ∷ []) r) ∙ quoted-escape s r)

  nested_element :
      (f : ℕ) (ws : Values) (ds : Decoded E (Elements A)) (r : Text)
      → from f (items ws ++ b'}' ∷ r) ≡ reading ds r
      → from (suc f) (b'{' ∷ ((items ws ++ b'}' ∷ []) ++ r)) ≡ prepend (as_array ds) (from f r)
  unfolding elements token
  nested_element f ws (gives ds) r h = rw (append_assoc (items ws) (b'}' ∷ []) r, h)
  nested_element f ws (throws e) r h = rw (append_assoc (items ws) (b'}' ∷ []) r, h)

  -- The list behind its first comma, and the list behind a brace.
  from-items :
      (f : ℕ) (ws : Values) (r : Text)
      → 0 < f
      → from (suc f) (later ws ++ b'}' ∷ r) ≡ reading (decoded_all ws) r
      → from f (items ws ++ b'}' ∷ r) ≡ reading (decoded_all ws) r
  unfolding elements token items later decoded
  from-items zero ws r n h = absurd (omega (arith, n))
  from-items (suc f) nil r n h = refl
  from-items (suc f) (cons w ws) r n h = h

  from-item :
      (f : ℕ) (v : Value) (r : Text)
      → IsPlain v
      → stops r ≡ true
      → from f (items (inner v) ++ b'}' ∷ r) ≡ reading (decoded_all (inner v)) r
      → from (suc f) (item v ++ r) ≡ prepend (decoded v) (from f r)
  unfolding item bare_leaf same_text token decoded IsPlain
  from-item f null r h k ih =
      bare_element f null_text r (omega arith) (refl, (refl, (refl, (refl, tt)))) k
  from-item f (numeric t) r h k ih =
      bare_element f t r h.nonempty h.units_bare k
      ∙ ap (λ b. prepend (if b then gives sql_null else as_leaf (decode_leaf t)) (from f r))
          h.not_null
  from-item f (string s) r h k ih = quoted_element f s r
  from-item f (boolean true) r h k ih = bare_element f (b't' ∷ []) r (omega arith) (refl, tt) k
  from-item f (boolean false) r h k ih = bare_element f (b'f' ∷ []) r (omega arith) (refl, tt) k
  from-item f (nested ws) r h k ih = nested_element f ws (decoded_all ws) r ih

  after_comma :
      (f : ℕ) (v : Value) (vs : Values) (r : Text)
      → from (suc f) (later (cons v vs) ++ r) ≡ from f (item v ++ (later vs ++ r))
  unfolding elements token later
  after_comma f v vs r = ap (from f) (append_assoc (item v) (later vs) r)

  from-later :
      (f : ℕ) (vs : Values) (r : Text)
      → ArePlain vs
      → length (later vs) < f
      → from f (later vs ++ b'}' ∷ r) ≡ reading (decoded_all vs) r
  unfolding later decoded IsPlain
  from-later zero vs r h k = absurd (omega (arith, k))
  from-later (suc f) nil r h k = unfold elements in unfold token in refl
  from-later (suc zero) (cons v vs) r h k = absurd (omega (arith, k))
  from-later (suc (suc f)) (cons v vs) r h k =
      let rest : Text = later vs ++ b'}' ∷ r in
      let room : length (item v) + length (later vs) ≤ f =
        omega (arith, k, length-append (item v) (later vs)) in
      let here : 0 < length (item v) = length-item v h.0 in
      let inside : length (later (inner v)) < suc f = omega (arith, room, length-inner v) in
      after_comma (suc f) v vs (b'}' ∷ r)
      ∙ from-item f v rest h.0 (stops-later vs r) (
          from-items f (inner v) rest (omega (arith, room, here))
            (from-later (suc f) (inner v) rest (inner-ArePlain v h.0) inside))
      ∙ ap (prepend (decoded v)) (from-later f vs r h.1 (omega (arith, room, here)))
      ∙ prepend-reading (decoded v) (decoded_all vs) r

  from_brace :
      (n : ℕ) (vs : Values)
      → ArePlain vs
      → length (items vs) < n
      → from n (items vs ++ b'}' ∷ []) ≡ reading (decoded_all vs) []
  from_brace n vs h k =
      from-items n vs [] (omega (arith, k))
        (from-later (suc n) vs [] h (omega (arith, k, length-later vs)))

  -- What `arrayLiteral` writes, `parseArrayLiteral` reads back: nested arrays, NULL and every text
  -- between quotes, with each leaf decoded from the text that was written for it; where the decoder of
  -- leaves throws, the first error is thrown. A number's text is not empty, is not NULL and has no
  -- comma, brace or quote.
  pub parse_array_literal-array_literal :
      (vs : Values)
      → ArePlain vs
      → parse_array_literal decode_leaf b',' (array_literal vs) ≡ outcome (decoded_all vs)
  unfolding parse_array_literal array_literal skip_dimensions
  parse_array_literal-array_literal vs h =
      ap only_elements (from_brace _ vs h (omega (arith, length-append (items vs) (b'}' ∷ []))))
      ∙ only_elements-reading (decoded_all vs) []

  after_equals-append :
      (d r : Text) → All (λ c. (c == b'=') ≡ false) d → after_equals (d ++ b'=' ∷ r) ≡ some r
  unfolding after_equals
  after_equals-append [] r h = refl
  after_equals-append (c ∷ d) r h = rw (h.0) (after_equals-append d r h.1)

  -- The same behind a prefix with the array's bounds, `[lb:ub]=`: any text without an equals sign
  -- between the bracket and the equals sign is skipped. Where the decoder of leaves throws, the
  -- first error is thrown.
  pub parse_array_literal_bounds :
      (d : Text) (vs : Values)
      → All (λ c. (c == b'=') ≡ false) d
      → ArePlain vs
      → parse_array_literal decode_leaf b',' (b'[' ∷ (d ++ b'=' ∷ array_literal vs))
        ≡ outcome (decoded_all vs)
  unfolding parse_array_literal array_literal skip_dimensions after_equals
  parse_array_literal_bounds d vs free h =
      rw (after_equals-append d (b'{' ∷ (items vs ++ b'}' ∷ [])) free) (
        ap only_elements (
          from_brace _ vs h (
            omega (
              arith,
              length-append d (b'=' ∷ (b'{' ∷ (items vs ++ b'}' ∷ []))),
              length-append (items vs) (b'}' ∷ []),
            )))
        ∙ only_elements-reading (decoded_all vs) [])
