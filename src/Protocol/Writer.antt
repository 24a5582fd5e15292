-- ===== src/Protocol/Writer.antt =====
-- The class `Writer` of src/protocol.ts: a growable buffer with back-patched message lengths.
pub mod Append
pub mod Methods
pub mod Implements
use minipg.Base.{
  ℕ, zero, suc, ℤ, pos, negsuc, ◌+◌, ◌-◌, ◌*◌, ◌%◌, ◌≡◌, Bool, true, false, Option, none, some,
  List, [], ◌∷◌, length, take, drop, ltb, leb, if◌then◌else◌,
}
use minipg.Buffer.{Bytes, Text, utf8, uint16_be, int32_be, overwrite, characters, fitting, word32}
use minipg.Protocol.Result.{Error, out_of_range}

-- `Buffer.allocUnsafe`: memory of the size asked for, whatever it holds.
pub record Allocator : Type 0 where
  pub alloc : ℕ → Bytes
  pub length-alloc : (n : ℕ) → length (alloc n) ≡ n

pub record Writer : Type 0 where
  pub buf : Bytes
  pub off : ℕ
  pub msg_start : ℕ

-- A method ends, throws or goes on for ever, and what it did to the writer stays.
pub data Outcome : Type 0 where
  done : Writer → Outcome
  threw : Error → Writer → Outcome
  hangs : Outcome

abbrev pub Method : Type 0
Method = Writer → Outcome

abbrev pub continue : Outcome → Method → Outcome
continue (done w) k = k w
continue (threw e w) k = threw e w
continue hangs k = hangs

-- `m; k`
infixr 5 ◌then◌
unfoldable pub ◌then◌ : Method → Method → Method
◌then◌ m k w = continue (m w) k

-- `buf.writeInt32BE(z, pos)` and `buf.writeUInt16BE(n, pos)`, which check the value and the offset.
abbrev put_word : Option Bytes → ℕ → Method
put_word none p w = threw out_of_range w
put_word (some bs) p w =
    if leb (p + length bs) (length w.buf)
    then done (record w { buf = overwrite w.buf p bs })
    else threw out_of_range w

unfoldable pub patch16 : ℕ → ℕ → Method
patch16 p n = put_word (uint16_be n) p

unfoldable pub patch32 : ℕ → ℤ → Method
patch32 p z = put_word (int32_be z) p

unfoldable pub advance : ℕ → Method
advance n w = done (record w { off = w.off + n })

-- `while (cap < need) cap *= 2`, which ends only from a capacity above 0.
unfoldable pub grow : ℕ → ℕ → ℕ → Option ℕ
grow zero cap need = none
grow (suc fuel) cap need =
    let more = grow fuel (cap * 2) need in if ltb cap need then more else some cap

-- `need` doublings reach `need` from any capacity but 0.
abbrev grow_fuel : ℕ → ℕ
grow_fuel need = suc need

module _ ⦃a : Allocator⦄ where
  unfoldable pub create : ℕ → Writer
  create size = record { buf = a.alloc size; off = 0; msg_start = 0 }

  abbrev reallocate : Option ℕ → Method
  reallocate none w = hangs
  reallocate (some cap) w = done (record w { buf = overwrite (a.alloc cap) 0 (take w.off w.buf) })

  unfoldable pub ensure : ℕ → Method
  ensure n w =
      if leb (w.off + n) (length w.buf)
      then done w
      else reallocate (grow (suc (w.off + n)) (length w.buf * 2) (w.off + n)) w

  -- `this.buf[this.off++] = n`
  unfoldable pub put_byte : ℕ → Method
  put_byte n w = done (record w { buf = overwrite w.buf w.off (n % 256 ∷ []); off = w.off + 1 })

  unfoldable pub byte : ℕ → Method
  byte n = ensure 1 then put_byte n

  unfoldable pub int16 : ℕ → Method
  int16 n = ensure 2 then (λ w. patch16 w.off n w) then advance 2

  unfoldable pub int32 : ℤ → Method
  int32 z = ensure 4 then (λ w. patch32 w.off z w) then advance 4

  -- `b.copy(this.buf, this.off); this.off += b.length`
  unfoldable pub put_bytes : Bytes → Method
  put_bytes b w = done (record w { buf = overwrite w.buf w.off b; off = w.off + length b })

  unfoldable pub bytes : Bytes → Method
  bytes b = ensure (length b) then put_bytes b

  -- What `this.buf.write(s, at, 'utf8')` puts into the room that is left.
  abbrev written : Writer → ℕ → Text → Bytes
  written w at s = fitting (length w.buf - at) (characters s)

  unfoldable pub put_cstr : Text → Method
  put_cstr s w =
      let mem = overwrite w.buf w.off (written w w.off s) in
      let end = w.off + length (utf8 s) in
      done (record w { buf = overwrite mem end (0 ∷ []); off = end + 1 })

  unfoldable pub cstr : Text → Method
  cstr s = ensure (length (utf8 s) + 1) then put_cstr s

  unfoldable pub put_str : Text → Method
  put_str s w =
      let bs = written w w.off s in
      done (record w { buf = overwrite w.buf w.off bs; off = w.off + length bs })

  unfoldable pub str : Text → Method
  str s = ensure (length s * 3) then put_str s

  -- The length is patched in front of the text, once the runtime has said how much it wrote.
  unfoldable pub put_lp_str : Text → Method
  put_lp_str s w =
      let bs = written w (w.off + 4) s in
      ((λ v. patch32 v.off (pos (length bs)) v) then advance (4 + length bs))
        (record w { buf = overwrite w.buf (w.off + 4) bs })

  unfoldable pub lp_str : Text → Method
  lp_str s = ensure (4 + length s * 3) then put_lp_str s

  unfoldable pub lp_bytes : Bytes → Method
  lp_bytes b = int32 (pos (length b)) then bytes b

  unfoldable pub set_msg_start : Method
  set_msg_start w = done (record w { msg_start = w.off })

  unfoldable pub start : ℕ → Method
  start type = byte type then set_msg_start then ensure 4 then advance 4

unfoldable pub end : Method
end w = patch32 w.msg_start (pos (w.off - w.msg_start)) w

abbrev pub slice : Writer → Bytes
slice w = take w.off w.buf

abbrev pub mark : Writer → ℕ
mark w = w.off

abbrev pub rewind : ℕ → Writer → Writer
rewind off w = record w { off = off }

abbrev pub reset : Writer → Writer
reset w = record w { off = 0 }
