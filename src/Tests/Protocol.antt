-- ===== src/Tests/Protocol.antt =====
-- src/protocol.ts: sample messages, and the theorems on them.
use minipg.Base.{◌≡◌, refl, List, [], ◌∷◌, ◌++◌, none, some, arith, replicate, length-replicate}
use minipg.Buffer.{
  Bytes, utf8, characters, join, fitting, uint16_be, int32_be, overwrite, read_int32,
}
use minipg.Protocol.Result.{ok, out_of_range}
use minipg.Protocol.Messages.{
  EncodedParam, bind, parse, msg, i32, i16, format_codes, param_values, param_value,
}
use minipg.Protocol.Messages
use minipg.Protocol.Writer.{
  Allocator, Writer, slice, rewind, threw, ◌then◌, byte, int16, int32, cstr, bytes, start, end,
  ensure, grow, patch16, patch32, advance, put_byte, put_bytes, put_cstr, set_msg_start,
}
use minipg.Protocol.Writer.Append.{IsValid}
use minipg.Protocol.Write.{
  one, write_bind, write_bind_raw, write_parse, int16s, write_values, write_value, result_formats,
  at_most_65535,
}
use minipg.Protocol.Write.Send.{SendsAt}
use minipg.Protocol.Write.Refine.{write_parse-Sends}
use minipg.Protocol.Write.Bind.{write_bind_raw-write_bind, write_bind-Sends, rewind-write_bind}
use minipg.Protocol.Parser.{
  RawMessage, scanned, push, new_parser, returned, scan_from, frame_at, complete,
}
use minipg.Protocol.Parser.Chunks.{observe, push_all, concat}
use minipg.Protocol.Parser.Front.{front}
use minipg.Protocol.Parser.Division.{push_all-push}
use minipg.Protocol.Parser.Outcome.{EndsWell, push-EndsWell}
use minipg.Protocol.Parser.RoundTrip.{push_all-wires, push_conserves, wires}

-- Memory that happens to hold zeros.
instance abbrev zeroed : Allocator
zeroed = record { alloc = λ n. replicate n 0; length-alloc = λ n. length-replicate n 0 }

-- A writer of two bytes, which has to grow for any message.
abbrev small : Writer
small = record { buf = 7 ∷ 7 ∷ []; off = 1; msg_start = 0 }

abbrev params : List EncodedParam
params = record { format = 1; bytes = some (1 ∷ 2 ∷ []) } ∷ record { format = 0; bytes = none } ∷ []

abbrev bad_params : List EncodedParam
bad_params = record { format = 70000; bytes = none } ∷ []

abbrev bind_bytes : Bytes
bind_bytes =
    b'B' ∷ 0 ∷ 0 ∷ 0 ∷ 29 ∷ 0 ∷ b's' ∷ 0 ∷ 0 ∷ 2 ∷ 0 ∷ 1 ∷ 0 ∷ 0 ∷ 0 ∷ 2 ∷ 0 ∷ 0 ∷ 0 ∷ 2 ∷ 1 ∷ 2
    ∷ 255 ∷ 255 ∷ 255 ∷ 255 ∷ 0 ∷ 1 ∷ 0 ∷ 1 ∷ []

bind_run : bind [] (b's' ∷ []) params 1 ≡ ok bind_bytes
unfolding bind msg i16 i32 format_codes param_values param_value Messages.cstr utf8 characters join
    uint16_be int32_be
bind_run = refl

small-IsValid : IsValid small
small-IsValid = record { within = omega arith; nonempty = omega arith }

write_bind-Sends_example :
    SendsAt small (write_bind [] (b's' ∷ []) params (one 1) small) (bind [] (b's' ∷ []) params 1)
write_bind-Sends_example = write_bind-Sends [] (b's' ∷ []) params 1 small small-IsValid

write_parse-Sends_example :
    SendsAt small (write_parse (b's' ∷ []) (b'x' ∷ []) [] small) (parse (b's' ∷ []) (b'x' ∷ []))
write_parse-Sends_example = write_parse-Sends (b's' ∷ []) (b'x' ∷ []) small small-IsValid

write_bind_raw-write_bind_example :
    write_bind_raw [] (b's' ∷ []) (1 ∷ 0 ∷ []) (some (1 ∷ 2 ∷ []) ∷ none ∷ []) (one 1) small
    ≡ write_bind [] (b's' ∷ []) params (one 1) small
write_bind_raw-write_bind_example = write_bind_raw-write_bind [] (b's' ∷ []) params (one 1) small

-- The format code of the first parameter does not fit sixteen bits.
write_bind_bad :
    write_bind [] [] bad_params (one 0) small
    ≡ threw out_of_range (record {
      buf = 7 ∷ b'B' ∷ 0 ∷ 0 ∷ 0 ∷ 0 ∷ 0 ∷ 0 ∷ 0 ∷ 1 ∷ 0 ∷ 0 ∷ 0 ∷ 0 ∷ 0 ∷ 0 ∷ [];
      off = 10;
      msg_start = 2;
    })
unfolding write_bind at_most_65535 start end byte int16 cstr int16s ensure grow put_byte put_cstr
    set_msg_start advance patch16 patch32 ◌then◌ overwrite uint16_be int32_be fitting characters
    join utf8 write_values write_value result_formats bytes int32 put_bytes
write_bind_bad = refl

rewind-write_bind_example :
    slice (
      rewind 1 (record {
        buf = 7 ∷ b'B' ∷ 0 ∷ 0 ∷ 0 ∷ 0 ∷ 0 ∷ 0 ∷ 0 ∷ 1 ∷ 0 ∷ 0 ∷ 0 ∷ 0 ∷ 0 ∷ 0 ∷ [];
        off = 10;
        msg_start = 2;
      }))
    ≡ 7 ∷ []
rewind-write_bind_example =
    rewind-write_bind [] [] bad_params (one 0) small small-IsValid write_bind_bad

abbrev ready : RawMessage
ready = record { type = b'Z'; body = b'I' ∷ [] }

abbrev complete_msg : RawMessage
complete_msg = record { type = b'C'; body = b'O' ∷ b'K' ∷ 0 ∷ [] }

-- Two messages cut in the middle of the second, and the first byte of a third.
abbrev cut : List Bytes
cut =
    (b'C' ∷ 0 ∷ 0 ∷ 0 ∷ 7 ∷ b'O' ∷ b'K' ∷ 0 ∷ b'Z' ∷ 0 ∷ [])
    ∷ (0 ∷ 0 ∷ 5 ∷ [])
    ∷ (b'I' ∷ b'E' ∷ [])
    ∷ []

push_all-push_example : push_all new_parser cut ≡ observe (push new_parser (concat cut))
unfolding front
push_all-push_example = push_all-push new_parser cut refl

push_all-wires_example :
    push_all new_parser cut ≡ scanned (complete_msg ∷ ready ∷ []) (record { buf = b'E' ∷ [] })
unfolding front
push_all-wires_example =
    push_all-wires cut (complete_msg ∷ ready ∷ []) (b'E' ∷ []) (omega arith) refl refl

push_run :
    push new_parser (b'Z' ∷ 0 ∷ 0 ∷ 0 ∷ 5 ∷ b'I' ∷ b'E' ∷ [])
    ≡ returned (ready ∷ []) (record { buf = b'E' ∷ [] })
unfolding push scan_from frame_at complete read_int32
push_run = refl

push_conserves_example :
    ◌≡◌ {A = Bytes} (b'Z' ∷ 0 ∷ 0 ∷ 0 ∷ 5 ∷ b'I' ∷ b'E' ∷ []) (wires (ready ∷ []) ++ b'E' ∷ [])
push_conserves_example =
    push_conserves new_parser (b'Z' ∷ 0 ∷ 0 ∷ 0 ∷ 5 ∷ b'I' ∷ b'E' ∷ []) (omega arith) push_run

-- A message whose length says 3, behind a whole one.
push-EndsWell_example :
    EndsWell
      (b'Z' ∷ 0 ∷ 0 ∷ 0 ∷ 5 ∷ b'I' ∷ b'E' ∷ 0 ∷ 0 ∷ 0 ∷ 3 ∷ [])
      (push new_parser (b'Z' ∷ 0 ∷ 0 ∷ 0 ∷ 5 ∷ b'I' ∷ b'E' ∷ 0 ∷ 0 ∷ 0 ∷ 3 ∷ []))
push-EndsWell_example =
    push-EndsWell new_parser (b'Z' ∷ 0 ∷ 0 ∷ 0 ∷ 5 ∷ b'I' ∷ b'E' ∷ 0 ∷ 0 ∷ 0 ∷ 3 ∷ [])
