-- ===== src/Protocol/Rows/Description.antt =====
-- RowDescription bodies as the server writes them, and what the decoder makes of them.
use minipg.Base.{
  ℕ, suc, ℤ, pos, negsuc, ◌+◌, ◌-◌, ◌<◌, ◌≡◌, ◌≢◌, refl, sym, ap, ◌∙◌, true, none, some, List, [],
  ◌∷◌, ◌++◌, append_assoc, arith, length, take, drop, All, drop-append_length, take-append_length,
  fits_word, to_word, drop-drop,
}
use minipg.Buffer.{
  Bytes, Text, word16, read_int16, read_int32, read_int32-word32, read_int16-word16,
}
use minipg.Protocol.Rows.{
  value, loops, ◌>>=◌, int16_at, int32_at, Field, until_nul, found, read, nul_from, fields_from,
  parse_row_description,
}
use minipg.Protocol.Rows.DataRow.{int32, IsInt32}

abbrev pub int16 : ℤ → Bytes
int16 z = word16 (to_word 65536 z)

abbrev pub IsInt16 : ℤ → Type 0
IsInt16 z = fits_word 32768 z ≡ true

read_int16_front : (z : ℤ) (rest : Bytes) → IsInt16 z → read_int16 (int16 z ++ rest) 0 ≡ some z
unfolding read_int16
read_int16_front (pos n) rest h = ground arith
read_int16_front (negsuc n) rest h = ground arith

-- Reading where the bytes from the offset on are known.
int16_at-drop :
    (body : Bytes) (off : ℕ) (z : ℤ) (rest : Bytes)
    → drop off body ≡ int16 z ++ rest
    → IsInt16 z
    → int16_at body off ≡ value z
unfolding read_int16
int16_at-drop body off z rest e h = ap read (ap (λ d. read_int16 d 0) e ∙ read_int16_front z rest h)

int32_at-drop :
    (body : Bytes) (off : ℕ) (z : ℤ) (rest : Bytes)
    → drop off body ≡ int32 z ++ rest
    → IsInt32 z
    → int32_at body off ≡ value z
unfolding read_int32
int32_at-drop body off z rest e h =
    ap read (ap (λ d. read_int32 d 0) e ∙ read_int32-word32 z rest h)

-- A column as the server describes it: the bytes of its name, and six numbers.
pub record Column : Type 0 where
  pub name_bytes : Bytes
  pub table_oid : ℤ
  pub column_id : ℤ
  pub data_type_oid : ℤ
  pub data_type_size : ℤ
  pub type_modifier : ℤ
  pub format : ℤ

abbrev pub IsNonzero : ℕ → Type 0
IsNonzero c = c ≢ 0

pub record IsColumn (c : Column) : Type 0 where
  pub name_nonzero : All IsNonzero c.name_bytes
  pub table_fits : IsInt32 c.table_oid
  pub column_fits : IsInt16 c.column_id
  pub type_fits : IsInt32 c.data_type_oid
  pub size_fits : IsInt16 c.data_type_size
  pub modifier_fits : IsInt32 c.type_modifier
  pub format_fits : IsInt16 c.format

abbrev numbers : Column → Bytes
numbers c =
    int32 c.table_oid
    ++ (int16 c.column_id
        ++ (int32 c.data_type_oid
            ++ (int16 c.data_type_size ++ (int32 c.type_modifier ++ int16 c.format))))

abbrev pub columns : List Column → Bytes
columns [] = []
columns (c ∷ cs) = c.name_bytes ++ (0 ∷ (numbers c ++ columns cs))

until_nul-append :
    (name rest : Bytes) → All IsNonzero name → until_nul (name ++ (0 ∷ rest)) ≡ some (length name)
unfolding until_nul
until_nul-append [] rest h = refl
until_nul-append (c ∷ name) rest h = ground (arith, until_nul-append name rest h.1, h.0)

until_nul-none : (bs : Bytes) → All IsNonzero bs → until_nul bs ≡ none
unfolding until_nul
until_nul-none [] h = refl
until_nul-none (c ∷ bs) h = ground (arith, until_nul-none bs h.1, h.0)

module _ (to_text : Bytes → Text) where
  abbrev pub field_of : Column → Field
  field_of c = record {
    name = to_text c.name_bytes;
    table_oid = c.table_oid;
    column_id = c.column_id;
    data_type_oid = c.data_type_oid;
    data_type_size = c.data_type_size;
    type_modifier = c.type_modifier;
    format = c.format;
  }

  abbrev pub fields_of : List Column → List Field
  fields_of [] = []
  fields_of (c ∷ cs) = field_of c ∷ fields_of cs

  -- One column, given what the loop makes of the rest.
  one_column :
      (n : ℕ) (body : Bytes) (off : ℕ) (c : Column) (rest : Bytes) (fs : List Field)
      → IsColumn c
      → drop off body ≡ c.name_bytes ++ (0 ∷ (numbers c ++ rest))
      → ((o : ℕ) → drop o body ≡ rest → fields_from to_text n body o ≡ value fs)
      → fields_from to_text (suc n) body off ≡ value (field_of c ∷ fs)
  unfolding fields_from
  one_column n body off c rest fs h e later =
      let end = off + length c.name_bytes in
      let at = end + 1 in
      let len : end - off ≡ length c.name_bytes = omega arith in
      let name : take (end - off) (drop off body) ≡ c.name_bytes =
        ap (λ k. take k (drop off body)) len
        ∙ ap (take (length c.name_bytes)) e
        ∙ take-append_length c.name_bytes (0 ∷ (numbers c ++ rest)) in
      let nul : nul_from body off ≡ value end =
        ap (found off)
          (ap until_nul e ∙ until_nul-append c.name_bytes (numbers c ++ rest) h.name_nonzero) in
      let front : drop at body ≡ numbers c ++ rest =
        sym (drop-drop end 1 body)
        ∙ ap (drop 1) (
            sym (drop-drop off (length c.name_bytes) body)
            ∙ ap (drop (length c.name_bytes)) e
            ∙ drop-append_length c.name_bytes (0 ∷ (numbers c ++ rest))) in
      let past : (k : ℕ) → drop (at + k) body ≡ drop k (numbers c ++ rest) =
        λ k. sym (drop-drop at k body) ∙ ap (drop k) front in
      rw (
        nul,
        fields_from,
        ◌>>=◌,
        int32_at-drop body at c.table_oid _ front h.table_fits,
        int16_at-drop body (at + 4) c.column_id _ (past 4) h.column_fits,
        int32_at-drop body (at + 6) c.data_type_oid _ (past 6) h.type_fits,
        int16_at-drop body (at + 10) c.data_type_size _ (past 10) h.size_fits,
        int32_at-drop body (at + 12) c.type_modifier _ (past 12) h.modifier_fits,
        int16_at-drop body (at + 16) c.format rest (past 16) h.format_fits,
        later (at + 18) (past 18),
        name,
      )

  fields_from-columns :
      (cs : List Column) (body : Bytes) (off : ℕ) (tail : Bytes)
      → All IsColumn cs
      → drop off body ≡ columns cs ++ tail
      → fields_from to_text (length cs) body off ≡ value (fields_of cs)
  fields_from-columns [] body off tail h e = unfold fields_from in refl
  fields_from-columns (c ∷ cs) body off tail h e =
      one_column (length cs) body off c (columns cs ++ tail) (fields_of cs) h.0
        (e
          ∙ append_assoc c.name_bytes (0 ∷ (numbers c ++ columns cs)) tail
          ∙ ap (λ r. c.name_bytes ++ (0 ∷ r)) (append_assoc (numbers c) (columns cs) tail))
        (λ o eo. fields_from-columns cs body o tail h.1 eo)

  -- `parseRowDescription` reads back every description of at most 32767 columns whose names have no
  -- zero byte and whose numbers fit their words, whatever follows; a name is what the runtime's
  -- decoder makes of its bytes.
  pub parse_row_description-columns :
      (cs : List Column) (tail : Bytes)
      → length cs < 32768
      → All IsColumn cs
      → parse_row_description to_text (word16 (length cs) ++ (columns cs ++ tail))
        ≡ value (fields_of cs)
  unfolding parse_row_description
  parse_row_description-columns cs tail small h =
      rw (read_int16-word16 (length cs) (columns cs ++ tail) small, parse_row_description, ◌>>=◌)
        (fields_from-columns cs (word16 (length cs) ++ (columns cs ++ tail)) 2 tail h refl)

  -- On a body that announces a column and has no zero byte behind the count, `parseRowDescription`
  -- never returns: its search for the end of the name leaves the body.
  pub parse_row_description_loops :
      (body : Bytes) (n : ℕ)
      → read_int16 body 0 ≡ some (pos (suc n))
      → All IsNonzero (drop 2 body)
      → parse_row_description to_text body ≡ loops
  unfolding parse_row_description fields_from
  parse_row_description_loops body n e h =
      rw (e, parse_row_description, ◌>>=◌, ap (found 2) (until_nul-none (drop 2 body) h), ◌>>=◌)
