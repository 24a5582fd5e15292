-- ===== src/Protocol/Rows/DataRow.antt =====
-- DataRow and ParameterDescription bodies as the server writes them, and what the decoders make of
-- them.
use minipg.Base.{
  ℕ, suc, ℤ, pos, negsuc, ◌+◌, ◌*◌, ◌<◌, ◌≡◌, refl, sym, ap, subst, ◌∙◌, true, Option, none, some,
  List, [], ◌∷◌, ◌++◌, append_assoc, arith, length, take, drop, length-append, All,
  drop-append_length, take-append_length, fits_word, to_word, lt→ltb, drop-drop,
}
use minipg.Buffer.{Bytes, word16, word32, read_int32, read_int32-word32, read_int16-word16}
use minipg.Protocol.Rows.{
  value, ◌>>=◌, sub_array, cells_from, parse_data_row, oids_from, parse_parameter_description,
}

-- The four bytes of an int32.
abbrev pub int32 : ℤ → Bytes
int32 z = word32 (to_word 4294967296 z)

abbrev pub IsInt32 : ℤ → Type 0
IsInt32 z = fits_word 2147483648 z ≡ true

-- Reading behind a prefix.
pub read_int32-append :
    (pre rest : Bytes) (z : ℤ)
    → IsInt32 z
    → read_int32 (pre ++ (int32 z ++ rest)) (length pre) ≡ some z
unfolding read_int32
read_int32-append pre rest z h =
    rw (drop-append_length pre (int32 z ++ rest)) (read_int32-word32 z rest h)

-- A cell on the wire: its length, -1 for NULL, and its bytes.
abbrev pub cell : Option Bytes → Bytes
cell none = int32 (negsuc 0)
cell (some b) = int32 (pos (length b)) ++ b

abbrev pub cells : List (Option Bytes) → Bytes
cells [] = []
cells (c ∷ cs) = cell c ++ cells cs

abbrev pub IsCell : Option Bytes → Type 0
IsCell none = Unit {0}
IsCell (some b) = length b < 2147483648

-- One cell, given what the loop makes of the rest.
null_cell :
    (n : ℕ) (body : Bytes) (off : ℕ) (cs : List (Option Bytes))
    → read_int32 body off ≡ some (negsuc 0)
    → cells_from n body (some (off + 4)) ≡ value cs
    → cells_from (suc n) body (some off) ≡ value (none ∷ cs)
unfolding cells_from
null_cell n body off cs e rest = rw (e, cells_from, ◌>>=◌, rest)

value_cell :
    (n : ℕ) (body : Bytes) (off k : ℕ) (cs : List (Option Bytes))
    → read_int32 body off ≡ some (pos k)
    → cells_from n body (some (off + 4 + k)) ≡ value cs
    → cells_from (suc n) body (some off) ≡ value (some (take k (drop (off + 4) body)) ∷ cs)
unfolding cells_from sub_array
value_cell n body off k cs e rest = rw (e, cells_from, ◌>>=◌, rest)

-- The loop behind one more cell.
behind :
    (n : ℕ) (pre c rest : Bytes) (off : ℕ)
    → off ≡ length (pre ++ c)
    → cells_from n (pre ++ (c ++ rest)) (some off)
      ≡ cells_from n ((pre ++ c) ++ rest) (some (length (pre ++ c)))
behind n pre c rest off e =
    ap (λ b. cells_from n b (some off)) (sym (append_assoc pre c rest))
    ∙ ap (λ o. cells_from n ((pre ++ c) ++ rest) (some o)) e

cells_from-cells :
    (pre : Bytes) (cs : List (Option Bytes)) (tail : Bytes)
    → All IsCell cs
    → cells_from (length cs) (pre ++ (cells cs ++ tail)) (some (length pre)) ≡ value cs
cells_from-cells pre [] tail h = unfold cells_from in refl
cells_from-cells pre (none ∷ cs) tail h =
    null_cell (length cs) (pre ++ (cells (none ∷ cs) ++ tail)) (length pre) cs
      (read_int32-append pre (cells cs ++ tail) (negsuc 0) refl)
      (behind (length cs) pre (cell none) (cells cs ++ tail) (length pre + 4)
          (sym (length-append pre (cell none)))
        ∙ cells_from-cells (pre ++ cell none) cs tail h.1)
cells_from-cells pre (some b ∷ cs) tail h =
    subst (λ body. cells_from (suc (length cs)) body (some (length pre)) ≡ value (some b ∷ cs))
      (ap (λ r. pre ++ (int32 (pos (length b)) ++ r)) (sym (append_assoc b (cells cs) tail)))
      (subst (λ x. cells_from (suc (length cs)) body (some (length pre)) ≡ value (some x ∷ cs))
        content
        (value_cell (length cs) body (length pre) (length b) cs
          (read_int32-append pre (b ++ (cells cs ++ tail)) (pos (length b)) (lt→ltb _ _ h.0))
          (behind (length cs) pre (cell (some b)) (cells cs ++ tail) (length pre + 4 + length b)
              (omega (arith, length-append pre (cell (some b))))
            ∙ cells_from-cells (pre ++ cell (some b)) cs tail h.1)))
  where
    body : Bytes
    body = pre ++ (int32 (pos (length b)) ++ (b ++ (cells cs ++ tail)))

    content : take (length b) (drop (length pre + 4) body) ≡ b
    content =
        ap (take (length b)) (
          sym (drop-drop (length pre) 4 body)
          ∙ ap (drop 4)
              (drop-append_length pre (int32 (pos (length b)) ++ (b ++ (cells cs ++ tail)))))
        ∙ take-append_length b (cells cs ++ tail)

-- A DataRow body: the count of its cells, then the cells.
abbrev pub data_row : List (Option Bytes) → Bytes
data_row cs = word16 (length cs) ++ cells cs

-- `parseDataRow` reads back every row of at most 32767 cells, each NULL or shorter than 2^31 bytes,
-- whatever follows the last cell.
pub parse_data_row-data_row :
    (cs : List (Option Bytes)) (tail : Bytes)
    → length cs < 32768
    → All IsCell cs
    → parse_data_row (data_row cs ++ tail) ≡ value cs
unfolding parse_data_row
parse_data_row-data_row cs tail small h =
    rw (read_int16-word16 (length cs) (cells cs ++ tail) small, parse_data_row, ◌>>=◌)
      (cells_from-cells (word16 (length cs)) cs tail h)

abbrev pub oid_words : List ℤ → Bytes
oid_words [] = []
oid_words (z ∷ zs) = int32 z ++ oid_words zs

oids_from-oid_words :
    (pre : Bytes) (i : ℕ) (zs : List ℤ) (tail : Bytes)
    → length pre ≡ 2 + i * 4
    → All IsInt32 zs
    → oids_from (length zs) (pre ++ (oid_words zs ++ tail)) i ≡ value zs
unfolding oids_from
oids_from-oid_words pre i [] tail e h = refl
oids_from-oid_words pre i (z ∷ zs) tail e h =
    let at : read_int32 (pre ++ (oid_words (z ∷ zs) ++ tail)) (2 + i * 4) ≡ some z =
      ap (read_int32 (pre ++ (oid_words (z ∷ zs) ++ tail))) (sym e)
      ∙ read_int32-append pre (oid_words zs ++ tail) z h.0 in
    let later : oids_from (length zs) (pre ++ (oid_words (z ∷ zs) ++ tail)) (suc i) ≡ value zs =
      ap (λ b. oids_from (length zs) b (suc i))
        (sym (append_assoc pre (int32 z) (oid_words zs ++ tail)))
      ∙ oids_from-oid_words (pre ++ int32 z) (suc i) zs tail
          (omega (arith, length-append pre (int32 z), e)) h.1 in
    rw (at, oids_from, ◌>>=◌, later)

-- `parseParameterDescription` reads back the type of each parameter, of at most 32767 whose types
-- fit an int32, whatever follows.
pub parse_parameter_description-oid_words :
    (zs : List ℤ) (tail : Bytes)
    → length zs < 32768
    → All IsInt32 zs
    → parse_parameter_description (word16 (length zs) ++ (oid_words zs ++ tail)) ≡ value zs
unfolding parse_parameter_description
parse_parameter_description-oid_words zs tail small h =
    rw
      (
        read_int16-word16 (length zs) (oid_words zs ++ tail) small,
        parse_parameter_description,
        ◌>>=◌,
      )
      (oids_from-oid_words (word16 (length zs)) 0 zs tail refl h)
