-- ===== src/Arrays.antt =====
-- PostgreSQL array literals: `arrayLiteral` of src/encode.ts and `parseArrayLiteral` of src/decode.ts.
pub mod Element
pub mod RoundTrip
pub mod Total
use minipg.Base.{
  ℕ, zero, suc, ◌+◌, ◌≡◌, Bool, true, false, ◌||◌, Option, none, some, List, [], ◌∷◌, ◌++◌, length,
  drop, ◌==◌, if◌then◌else◌,
}
use minipg.Buffer.{Text}

mutual
  -- A JavaScript value in an array. A number or a bigint is the text that `String` gives for it, and
  -- a date, a buffer, an object or a string is the text that goes between the quotes.
  pub data Value : Type 0 where
    null : Value
    numeric string : Text → Value
    boolean : Bool → Value
    nested : Values → Value

  pub data Values : Type 0 where
    nil : Values
    cons : Value → Values → Values

-- `s.replace(/c/g, '\\c')`: a backslash before each unit c.
unfoldable pub escape_unit : ℕ → Text → Text
escape_unit c [] = []
escape_unit c (x ∷ xs) =
    let more = escape_unit c xs in if x == c then b'\\' ∷ x ∷ more else x ∷ more

unfoldable pub escape : Text → Text
escape s = escape_unit b'"' (escape_unit b'\\' s)

abbrev pub null_text : Text
null_text = b'N' ∷ b'U' ∷ b'L' ∷ b'L' ∷ []

unfoldable mutual
  pub item : Value → Text
  item null = null_text
  item (nested vs) = b'{' ∷ (items vs ++ b'}' ∷ [])
  item (numeric s) = s
  item (boolean b) = (if b then b't' else b'f') ∷ []
  item (string s) = b'"' ∷ (escape s ++ b'"' ∷ [])

  -- The loop at the first element, and behind it.
  pub items : Values → Text
  items nil = []
  items (cons v vs) = item v ++ later vs

  pub later : Values → Text
  later nil = []
  later (cons v vs) = b',' ∷ (item v ++ later vs)

unfoldable pub array_literal : Values → Text
array_literal vs = b'{' ∷ (items vs ++ b'}' ∷ [])

mutual
  -- What the parser gives: null, a decoded leaf, or an array.
  pub data Parsed (A : Type 0) : Type 0 where
    sql_null : Parsed A
    leaf : A → Parsed A
    array : Elements A → Parsed A

  pub data Elements (A : Type 0) : Type 0 where
    empty : Elements A
    push : Parsed A → Elements A → Elements A

unfoldable pub same_text : Text → Text → Bool
same_text [] [] = true
same_text [] (y ∷ ys) = false
same_text (x ∷ xs) [] = false
same_text (x ∷ xs) (y ∷ ys) = let more = same_text xs ys in if x == y then more else false

-- What `s += text[i + 1]` adds where the text ends with a backslash.
abbrev undefined_text : Text
undefined_text = b'u' ∷ b'n' ∷ b'd' ∷ b'e' ∷ b'f' ∷ b'i' ∷ b'n' ∷ b'e' ∷ b'd' ∷ []

abbrev add : Text → Text × Text → Text × Text
add u (s, rest) = (u ++ s, rest)

-- From behind the opening quote: the element, and the text behind the closing quote.
unfoldable pub quoted : Text → Text × Text
quoted [] = ([], [])
quoted (c ∷ []) =
    if c == b'\\' then (undefined_text, []) else (if c == b'"' then ([], []) else (c ∷ [], []))
quoted (c ∷ d ∷ rest) =
    let escaped = quoted rest in
    let more = quoted (d ∷ rest) in
    if c == b'\\'
    then add (d ∷ []) escaped
    else (if c == b'"' then ([], d ∷ rest) else add (c ∷ []) more)

-- An element without quotes reaches to the delimiter or the closing brace.
unfoldable pub unquoted : ℕ → Text → Text × Text
unquoted delim [] = ([], [])
unquoted delim (c ∷ rest) =
    let more = unquoted delim rest in
    if c == delim then ([], c ∷ rest) else (if c == b'}' then ([], c ∷ rest) else add (c ∷ []) more)

pub data Token : Type 0 where
  closing separator opening quote bare : Token

-- The loop's tests, in its order.
unfoldable pub token : ℕ → ℕ → Token
token delim c =
    if c == b'}'
    then closing
    else if c == delim
    then separator
    else if c == b'{'
    then opening
    else (if c == b'"' then quote else bare)

-- `text.indexOf('=')`, and the text behind it.
unfoldable pub after_equals : Text → Option Text
after_equals [] = none
after_equals (c ∷ rest) = let more = after_equals rest in if c == b'=' then some rest else more

abbrev pub or_else : Text → Option Text → Text
or_else text none = text
or_else text (some rest) = rest

-- Behind the dimension prefix, `[lb:ub]=`.
unfoldable pub skip_dimensions : Text → Text
skip_dimensions [] = []
skip_dimensions (c ∷ rest) =
    let behind = or_else (c ∷ rest) (after_equals (c ∷ rest)) in
    if c == b'[' then behind else c ∷ rest

-- What a leaf decoder gives, or the error that it throws: `BigInt` and `JSON.parse` refuse some texts.
pub data Decoded (E A : Type 0) : Type 0 where
  gives : A → Decoded E A
  throws : E → Decoded E A

-- What the parser is at: the elements so far and the text behind them, or how it ended.
pub data Reading (E A : Type 0) : Type 0 where
  read : Elements A → Text → Reading E A
  stopped : E → Reading E A
  out_of_fuel : Reading E A

pub data Outcome (E A : Type 0) : Type 0 where
  returned : Elements A → Outcome E A
  threw : E → Outcome E A
  hangs : Outcome E A

module _ {E A : Type 0} where
  abbrev pub as_leaf : Decoded E A → Decoded E (Parsed A)
  as_leaf (gives a) = gives (leaf a)
  as_leaf (throws e) = throws e

  -- `out.push(...)`, which is not reached where the decoder throws.
  abbrev pub prepend : Decoded E (Parsed A) → Reading E A → Reading E A
  prepend (throws e) r = stopped e
  prepend (gives v) (read vs rest) = read (push v vs) rest
  prepend (gives v) (stopped e) = stopped e
  prepend (gives v) out_of_fuel = out_of_fuel

  abbrev pub only_elements : Reading E A → Outcome E A
  only_elements (read vs rest) = returned vs
  only_elements (stopped e) = threw e
  only_elements out_of_fuel = hangs

module _ {E A : Type 0} (decode_leaf : Text → Decoded E A) (delim : ℕ) where
  unfoldable pub bare_leaf : Text → Decoded E (Parsed A)
  bare_leaf raw = if same_text raw null_text then gives sql_null else as_leaf (decode_leaf raw)

  -- `arr` from behind its opening brace: the elements, and the text behind its closing brace. Each
  -- round and each array takes a unit at least.
  unfoldable pub elements : ℕ → Text → Reading E A
  elements zero rest = out_of_fuel
  elements (suc fuel) [] = read empty []
  elements (suc fuel) (c ∷ rest) = elim (token delim c) [
    | closing ↦ read empty rest
    | separator ↦ elements fuel rest
    | opening ↦ elim (elements fuel rest) [
      | out_of_fuel ↦ out_of_fuel
      | stopped e ↦ stopped e
      | read inner more ↦ prepend (gives (array inner)) (elements fuel more)
    ]
    | quote ↦ prepend (as_leaf (decode_leaf (quoted rest).0)) (elements fuel (quoted rest).1)
    | bare ↦
        prepend (bare_leaf (unquoted delim (c ∷ rest)).0)
          (elements fuel (unquoted delim (c ∷ rest)).1)
  ]

  unfoldable pub parse_array_literal : Text → Outcome E A
  parse_array_literal text =
      only_elements (elements (suc (length text)) (drop 1 (skip_dimensions text)))
