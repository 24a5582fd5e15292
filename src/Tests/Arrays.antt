-- ===== src/Tests/Arrays.antt =====
-- src/encode.ts and src/decode.ts: sample array literals, and the theorems on them.
use minipg.Base.{◌≡◌, refl, true, [], ◌∷◌, ◌++◌, arith, has, if◌then◌else◌}
use minipg.Buffer.{Text}
use minipg.Arrays.{
  null, numeric, string, boolean, nested, Values, nil, cons, Decoded, gives, throws, returned,
  threw, elements, skip_dimensions, bare_leaf, unquoted, sql_null, leaf, array, Elements, empty,
  push, parse_array_literal, array_literal, item, escape, escape_unit, same_text, token,
}
use minipg.Arrays.RoundTrip.{decoded, parse_array_literal-array_literal, parse_array_literal_bounds}
use minipg.Arrays.Total.{Ends, parse_array_literal-Ends}
use minipg.Arrays.Element.{IsPlain, ArePlain}

abbrev as_text : Text → Decoded Text Text
as_text t = gives t

-- A decoder that refuses a text with a point, as `BigInt` does.
abbrev whole : Text → Decoded Text Text
whole t = if has t b'.' then throws t else gives t

-- [7, null, ['a"b', true]]
abbrev mixed : Values
mixed = cons (numeric (b'7' ∷ [])) (
    cons null
      (cons (nested (cons (string (b'a' ∷ b'"' ∷ b'b' ∷ [])) (cons (boolean true) nil))) nil))

-- {7,NULL,{"a\"b",t}}
abbrev mixed_text : Text
mixed_text =
    b'{' ∷ b'7' ∷ b',' ∷ b'N' ∷ b'U' ∷ b'L' ∷ b'L' ∷ b',' ∷ b'{' ∷ b'"' ∷ b'a' ∷ b'\\' ∷ b'"' ∷ b'b'
    ∷ b'"' ∷ b',' ∷ b't' ∷ b'}' ∷ b'}' ∷ []

abbrev mixed_elements : Elements Text
mixed_elements = push (leaf (b'7' ∷ [])) (
    push sql_null
      (push (array (push (leaf (b'a' ∷ b'"' ∷ b'b' ∷ [])) (push (leaf (b't' ∷ [])) empty))) empty))

mixed_written : array_literal mixed ≡ mixed_text
unfolding array_literal item escape escape_unit
mixed_written = refl

mixed-ArePlain : ArePlain mixed
unfolding IsPlain same_text token
mixed-ArePlain = (
  record { nonempty = omega arith; units_bare = (refl, tt); not_null = refl },
  (tt, ((tt, (tt, tt)), tt)),
)

parse_array_literal-array_literal_example :
    parse_array_literal as_text b',' (array_literal mixed) ≡ returned mixed_elements
unfolding decoded
parse_array_literal-array_literal_example =
    parse_array_literal-array_literal as_text mixed mixed-ArePlain

-- [0:2]={7,NULL,{"a\"b",t}}
parse_array_literal_bounds_example :
    parse_array_literal as_text b','
      (b'[' ∷ ((b'0' ∷ b':' ∷ b'2' ∷ b']' ∷ []) ++ b'=' ∷ array_literal mixed))
    ≡ returned mixed_elements
unfolding decoded
parse_array_literal_bounds_example =
    parse_array_literal_bounds as_text (b'0' ∷ b':' ∷ b'2' ∷ b']' ∷ []) mixed
      (refl, (refl, (refl, (refl, tt)))) mixed-ArePlain

-- {7,1.5}
abbrev fraction : Text
fraction = b'{' ∷ b'7' ∷ b',' ∷ b'1' ∷ b'.' ∷ b'5' ∷ b'}' ∷ []

fraction_refused : parse_array_literal whole b',' fraction ≡ threw (b'1' ∷ b'.' ∷ b'5' ∷ [])
unfolding parse_array_literal elements skip_dimensions token bare_leaf unquoted same_text has
fraction_refused = refl

parse_array_literal-Ends_example : Ends whole b',' (parse_array_literal whole b',' fraction)
parse_array_literal-Ends_example = parse_array_literal-Ends whole b',' fraction
