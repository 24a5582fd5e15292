-- ===== src/Tests/Rows.antt =====
-- src/protocol.ts and src/errors.ts: sample bodies, and the theorems on them.
use minipg.Base.{◌≡◌, refl, pos, negsuc, List, [], ◌∷◌, none, some, arith}
use minipg.Buffer.{Bytes, Text, read_int16}
use minipg.Protocol.Rows.{
  value, loops, parse_data_row, parse_row_description, parse_parameter_description,
}
use minipg.Protocol.Rows.DataRow.{parse_data_row-data_row, parse_parameter_description-oid_words}
use minipg.Protocol.Rows.Description.{
  Column, parse_row_description-columns, parse_row_description_loops,
}
use minipg.Errors.{Key, parse_error_fields}
use minipg.Errors.Key.{code, message}
use minipg.Errors.RoundTrip
use minipg.Errors.RoundTrip.{parse_error_fields-fields, parse_error_fields_total}

-- A decoder for ASCII.
abbrev ascii : Bytes → Text
ascii b = b

-- A row of two cells, the second NULL, and a byte behind it.
abbrev two_cells : Bytes
two_cells = 0 ∷ 2 ∷ 0 ∷ 0 ∷ 0 ∷ 2 ∷ b'4' ∷ b'2' ∷ 255 ∷ 255 ∷ 255 ∷ 255 ∷ 9 ∷ []

parse_data_row-data_row_example :
    parse_data_row two_cells ≡ value (some (b'4' ∷ b'2' ∷ []) ∷ none ∷ [])
parse_data_row-data_row_example =
    parse_data_row-data_row (some (b'4' ∷ b'2' ∷ []) ∷ none ∷ []) (9 ∷ []) (omega arith)
      (omega arith, (tt, tt))

-- The types int4 and text.
parse_parameter_description-oid_words_example :
    parse_parameter_description (0 ∷ 2 ∷ 0 ∷ 0 ∷ 0 ∷ 23 ∷ 0 ∷ 0 ∷ 0 ∷ 25 ∷ [])
    ≡ value (pos 23 ∷ pos 25 ∷ [])
parse_parameter_description-oid_words_example =
    parse_parameter_description-oid_words (pos 23 ∷ pos 25 ∷ []) [] (omega arith) (refl, (refl, tt))

abbrev id_column : Column
id_column = record {
  name_bytes = b'i' ∷ b'd' ∷ [];
  table_oid = pos 16385;
  column_id = pos 1;
  data_type_oid = pos 23;
  data_type_size = pos 4;
  type_modifier = negsuc 0;
  format = pos 1;
}

parse_row_description-columns_example :
    parse_row_description ascii (
      0 ∷ 1 ∷ b'i' ∷ b'd' ∷ 0 ∷ 0 ∷ 0 ∷ 64 ∷ 1 ∷ 0 ∷ 1 ∷ 0 ∷ 0 ∷ 0 ∷ 23 ∷ 0 ∷ 4 ∷ 255 ∷ 255 ∷ 255
      ∷ 255 ∷ 0 ∷ 1 ∷ [])
    ≡ value (
        record {
          name = b'i' ∷ b'd' ∷ [];
          table_oid = pos 16385;
          column_id = pos 1;
          data_type_oid = pos 23;
          data_type_size = pos 4;
          type_modifier = negsuc 0;
          format = pos 1;
        }
        ∷ [])
parse_row_description-columns_example =
    parse_row_description-columns ascii (id_column ∷ []) [] (omega arith) (
      record {
        name_nonzero = (λ e. omega (arith, e), (λ e. omega (arith, e), tt));
        table_fits = refl;
        column_fits = refl;
        type_fits = refl;
        size_fits = refl;
        modifier_fits = refl;
        format_fits = refl;
      },
      tt,
    )

parse_row_description_loops_example : parse_row_description ascii (0 ∷ 1 ∷ b'i' ∷ []) ≡ loops
unfolding read_int16
parse_row_description_loops_example =
    parse_row_description_loops ascii (0 ∷ 1 ∷ b'i' ∷ []) 0 refl (λ e. omega (arith, e), tt)

abbrev missing_table : List RoundTrip.Field
missing_table =
    record { field_code = b'C'; content = b'4' ∷ b'2' ∷ [] }
    ∷ record { field_code = b'M'; content = b'n' ∷ b'o' ∷ [] }
    ∷ []

parse_error_fields-fields_example :
    parse_error_fields ascii (b'C' ∷ b'4' ∷ b'2' ∷ 0 ∷ b'M' ∷ b'n' ∷ b'o' ∷ 0 ∷ 0 ∷ [])
    ≡ some ((message, b'n' ∷ b'o' ∷ []) ∷ (code, b'4' ∷ b'2' ∷ []) ∷ [])
unfolding minipg.Errors.field_key
parse_error_fields-fields_example = parse_error_fields-fields ascii missing_table [] (
  record {
    code_nonzero = λ e. omega (arith, e);
    content_nonzero = (λ e. omega (arith, e), (λ e. omega (arith, e), tt));
  },
  (
    record {
      code_nonzero = λ e. omega (arith, e);
      content_nonzero = (λ e. omega (arith, e), (λ e. omega (arith, e), tt));
    },
    tt,
  ),
)

parse_error_fields_total_example :
    (r : List (Key × Text)) × (parse_error_fields ascii (b'C' ∷ b'4' ∷ []) ≡ some r)
parse_error_fields_total_example = parse_error_fields_total ascii (b'C' ∷ b'4' ∷ [])
