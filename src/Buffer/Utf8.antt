-- ===== src/Buffer/Utf8.antt =====
-- Text is a list of UTF-16 code units. `Buffer.from(s, 'utf8')` writes a surrogate pair in four
-- bytes and a lone surrogate as U+FFFD; `buf.write` writes whole characters while they fit.
use minipg.Base.{
  ℕ, ◌+◌, ◌-◌, ◌*◌, ◌/◌, ◌%◌, ◌≤◌, ◌≡◌, refl, Bool, ◌&&◌, List, [], ◌∷◌, ◌++◌, arith, length,
  length-append, ltb, leb, if◌then◌else◌, Bool-cases, inl, inr,
}
use minipg.Buffer.Memory.{Bytes}

abbrev pub Text : Type 0
Text = List ℕ

is_high : ℕ → Bool
is_high c = leb 0xd800 c && ltb c 0xdc00

is_low : ℕ → Bool
is_low c = leb 0xdc00 c && ltb c 0xe000

-- The bytes of one unit that stands alone.
single : ℕ → Bytes
single c =
    if ltb c 0x80
    then c ∷ []
    else if ltb c 0x800
    then (0xc0 + c / 64) ∷ (0x80 + c % 64) ∷ []
    else if leb 0xd800 c && ltb c 0xe000
    then 0xef ∷ 0xbf ∷ 0xbd ∷ []
    else (0xe0 + c / 4096) ∷ (0x80 + c / 64 % 64) ∷ (0x80 + c % 64) ∷ []

abbrev pair_code : ℕ → ℕ → ℕ
pair_code c d = 0x10000 + (c - 0xd800) * 1024 + (d - 0xdc00)

pair : ℕ → ℕ → Bytes
pair c d =
    let u = pair_code c d in
    (0xf0 + u / 262144) ∷ (0x80 + u / 4096 % 64) ∷ (0x80 + u / 64 % 64) ∷ (0x80 + u % 64) ∷ []

-- One list of bytes for each character.
unfoldable pub characters : Text → List Bytes
unfolding single pair is_high is_low
characters [] = []
characters (c ∷ []) = single c ∷ []
characters (c ∷ d ∷ rest) =
    let paired = pair c d ∷ characters rest in
    let alone = single c ∷ characters (d ∷ rest) in if is_high c && is_low d then paired else alone

unfoldable pub join : List Bytes → Bytes
join [] = []
join (c ∷ cs) = c ++ join cs

unfoldable pub utf8 : Text → Bytes
unfolding characters join
utf8 s = join (characters s)

-- The characters that fit into `room` bytes: `buf.write` stops before the first that does not.
unfoldable pub fitting : ℕ → List Bytes → Bytes
fitting room [] = []
fitting room (c ∷ cs) =
    let more = fitting (room - length c) cs in if leb (length c) room then c ++ more else []

pub fitting_all : (room : ℕ) (cs : List Bytes) → length (join cs) ≤ room → fitting room cs ≡ join cs
unfolding fitting join
fitting_all room [] h = refl
fitting_all room (c ∷ cs) h =
    ground (arith, length-append c (join cs), fitting_all (room - length c) cs)

pub length-fitting : (room : ℕ) (cs : List Bytes) → length (fitting room cs) ≤ room
unfolding fitting
length-fitting room [] = omega arith
length-fitting room (c ∷ cs) =
    ground
      (arith, length-append c (fitting (room - length c) cs), length-fitting (room - length c) cs)

length-single : (c : ℕ) → length (single c) ≤ 3
unfolding single
length-single c = ground arith

-- At most three bytes for each UTF-16 unit, the room that the writer reserves.
pub length-utf8 : (s : Text) → length (utf8 s) ≤ 3 * length s
unfolding utf8
length-utf8 [] = omega arith
length-utf8 (c ∷ []) = omega (arith, length-append (single c) [], length-single c)
length-utf8 (c ∷ d ∷ rest) = elim (Bool-cases (is_high c && is_low d)) [
  | inl paired ↦ rw paired (omega (arith, length-utf8 rest))
  | inr alone ↦ rw alone (
      omega (
        arith,
        length-append (single c) (utf8 (d ∷ rest)),
        length-single c,
        length-utf8 (d ∷ rest),
      ))
]
