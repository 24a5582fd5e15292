-- ===== src/Errors/RoundTrip.antt =====
-- Error bodies as the server writes them, and what `parseErrorFields` makes of them.
use minipg.Base.{
  ℕ, zero, suc, ◌+◌, ◌-◌, ◌≤◌, ◌<◌, ◌≡◌, ◌≢◌, refl, sym, ap, ◌∙◌, false, some, List, [], ◌∷◌, ◌++◌,
  append_assoc, arith, length, drop, take, length-append, length-drop, All, ltb, ◌==◌, lt→ltb,
  tests, drop-append_length, take-append_length, drop-drop, get_elem?-drop, get_elem?, inl, inr,
  Bool-cases,
}
use minipg.Buffer.{Bytes, Text}
use minipg.Protocol.Parser.{byte_at, or_zero}
use minipg.Errors.{Key, field_key, value_length, fields_loop, parse_error_fields}

abbrev IsNonzero : ℕ → Type 0
IsNonzero c = c ≢ 0

-- A field: its code, the bytes of its value.
pub record Field : Type 0 where
  pub field_code : ℕ
  pub content : Bytes

pub record IsField (f : Field) : Type 0 where
  pub code_nonzero : f.field_code ≢ 0
  pub content_nonzero : All IsNonzero f.content

abbrev pub field : Field → Bytes
field f = f.field_code ∷ (f.content ++ (0 ∷ []))

abbrev pub fields : List Field → Bytes
fields [] = []
fields (f ∷ fs) = field f ++ fields fs

value_length-append : (v rest : Bytes) → All IsNonzero v → value_length (v ++ (0 ∷ rest)) ≡ length v
unfolding value_length
value_length-append [] rest h = refl
value_length-append (c ∷ v) rest h = ground (arith, value_length-append v rest h.1, h.0)

==_ne : (a b : ℕ) → a ≢ b → (a == b) ≡ false
==_ne a b h = ground arith

length-fields : (fs : List Field) → length fs ≤ length (fields fs)
length-fields [] = omega arith
length-fields (f ∷ fs) = omega (arith, length-append (field f) (fields fs), length-fields fs)

-- The loop ends on every body: each round moves the offset on.
fields_loop_total :
    (to_text : Bytes → Text) (fuel : ℕ) (body : Bytes) (i : ℕ) (out : List (Key × Text))
    → length body - i < fuel
    → (r : List (Key × Text)) × (fields_loop to_text fuel body i out ≡ some r)
unfolding fields_loop
fields_loop_total to_text zero body i out h = absurd (omega arith)
fields_loop_total to_text (suc fuel) body i out h = elim (Bool-cases (ltb i (length body))) [
  | inr over ↦ (out, rw over)
  | inl inside ↦ elim (Bool-cases (byte_at body i == 0)) [
    | inl end ↦ (out, rw (inside, end))
    | inr more ↦ rw (inside, more) (fields_loop_total to_text fuel body _ _ (omega tests))
  ]
]

-- `parseErrorFields` returns on every body, also on one that is cut short.
pub parse_error_fields_total :
    (to_text : Bytes → Text) (body : Bytes)
    → (r : List (Key × Text)) × (parse_error_fields to_text body ≡ some r)
unfolding parse_error_fields
parse_error_fields_total to_text body = fields_loop_total to_text _ body 0 [] (omega arith)

module _ (to_text : Bytes → Text) where
  abbrev pub entry : Field → Key × Text
  entry f = (field_key f.field_code, to_text f.content)

  -- The assignments that the fields make, in front of those made before.
  abbrev pub entries : List Field → List (Key × Text) → List (Key × Text)
  entries [] out = out
  entries (f ∷ fs) out = entries fs (entry f ∷ out)

  one_field :
      (fuel : ℕ) (body : Bytes) (i : ℕ) (f : Field) (rest : Bytes) (out : List (Key × Text))
      → IsField f
      → drop i body ≡ f.field_code ∷ (f.content ++ (0 ∷ rest))
      → fields_loop to_text (suc fuel) body i out
        ≡ fields_loop to_text fuel body (i + 1 + length f.content + 1) (entry f ∷ out)
  unfolding fields_loop
  one_field fuel body i f rest out h e =
      let v = f.content in
      let after : drop (i + 1) body ≡ v ++ (0 ∷ rest) = sym (drop-drop i 1 body) ∙ ap (drop 1) e in
      let code : byte_at body i ≡ f.field_code =
        ap or_zero (sym (get_elem?-drop i body) ∙ ap (λ d. get_elem? d 0) e) in
      let inside : i < length body = omega (arith, length-drop i body, ap length e) in
      let n : value_length (drop (i + 1) body) ≡ length v =
        ap value_length after ∙ value_length-append v rest h.content_nonzero in
      let text : take (length v) (drop (i + 1) body) ≡ v =
        ap (take (length v)) after ∙ take-append_length v (0 ∷ rest) in
      rw (lt→ltb i (length body) inside, code, ==_ne f.field_code 0 h.code_nonzero, n, text)

  fields_loop-fields :
      (fuel : ℕ) (body : Bytes) (i : ℕ) (fs : List Field) (tail : Bytes) (out : List (Key × Text))
      → All IsField fs
      → drop i body ≡ fields fs ++ (0 ∷ tail)
      → length fs < fuel
      → fields_loop to_text fuel body i out ≡ some (entries fs out)
  fields_loop-fields zero body i fs tail out h e k = absurd (omega arith)
  fields_loop-fields (suc fuel) body i [] tail out h e k =
      let zero_byte : byte_at body i ≡ 0 =
        ap or_zero (sym (get_elem?-drop i body) ∙ ap (λ d. get_elem? d 0) e) in
      let inside : i < length body = omega (arith, length-drop i body, ap length e) in
      unfold fields_loop in rw (lt→ltb i (length body) inside, zero_byte)
  fields_loop-fields (suc fuel) body i (f ∷ fs) tail out h e k =
      one_field fuel body i f (fields fs ++ (0 ∷ tail)) out h.0 front
      ∙ fields_loop-fields fuel body (i + 1 + length f.content + 1) fs tail (entry f ∷ out) h.1 past
          (omega arith)
    where
      front : drop i body ≡ f.field_code ∷ (f.content ++ (0 ∷ (fields fs ++ (0 ∷ tail))))
      front =
          e
          ∙ append_assoc (field f) (fields fs) (0 ∷ tail)
          ∙ ap (◌∷◌ f.field_code) (append_assoc f.content (0 ∷ []) (fields fs ++ (0 ∷ tail)))

      past : drop (i + 1 + length f.content + 1) body ≡ fields fs ++ (0 ∷ tail)
      past =
          sym (drop-drop (i + 1 + length f.content) 1 body)
          ∙ ap (drop 1) (
              sym (drop-drop (i + 1) (length f.content) body)
              ∙ ap (drop (length f.content)) (sym (drop-drop i 1 body) ∙ ap (drop 1) front)
              ∙ drop-append_length f.content (0 ∷ (fields fs ++ (0 ∷ tail))))

  -- `parseErrorFields` assigns every field of an error body in order, under its key, up to the zero
  -- byte that ends them, and always returns there.
  pub parse_error_fields-fields :
      (fs : List Field) (tail : Bytes)
      → All IsField fs
      → parse_error_fields to_text (fields fs ++ (0 ∷ tail)) ≡ some (entries fs [])
  unfolding parse_error_fields
  parse_error_fields-fields fs tail h =
      fields_loop-fields _ (fields fs ++ (0 ∷ tail)) 0 fs tail [] h refl
        (omega (arith, length-append (fields fs) (0 ∷ tail), length-fields fs))
