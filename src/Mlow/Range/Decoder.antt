-- ===== src/Mlow/Range/Decoder.antt =====
-- `RangeDecoder`, which reads symbols from the front of the buffer and raw bits from its back.
use meowcaller.Base.{
  ℕ, zero, suc, ◌+◌, ◌-◌, ◌*◌, ◌/◌, ◌%◌, min, ltb, leb, ◌==◌, if◌then◌else◌, length, Bytes, u32,
  sub32, shr, shl, byte_at,
}

-- `ecCodeTop`, `ecCodeBot` and `ecWindowSize`; `ecSymBits` is 8 and `ecCodeExtra` is 7.
abbrev pub ec_code_top : ℕ
ec_code_top = 2147483648

abbrev pub ec_code_bot : ℕ
ec_code_bot = 8388608

abbrev pub ec_window_size : ℕ
ec_window_size = 32

-- `ilog`: the count of halvings until nothing is left, 32 of which suffice for a word.
unfoldable pub ilog_on : ℕ → ℕ → ℕ
ilog_on zero x = 0
ilog_on (suc fuel) x = let rest = ilog_on fuel (x / 2) in if x == 0 then 0 else suc rest

unfoldable pub ilog : ℕ → ℕ
ilog x = ilog_on 32 x

-- `d.storage` is the size of `d.buf` throughout.
pub record RangeDecoder : Type 0 where
  pub buf : Bytes
  pub end_offs : ℕ
  pub end_window : ℕ
  pub nend_bits : ℕ
  pub nbits_total : ℕ
  pub offs : ℕ
  pub rng : ℕ
  pub val : ℕ
  pub ext : ℕ
  pub rem : ℕ
  pub err : ℕ

-- What a method returns, and the decoder after it.
pub record Decoded : Type 0 where
  pub value : ℕ
  pub coder : RangeDecoder

unfoldable pub read_byte : RangeDecoder → Decoded
read_byte d =
    if ltb d.offs (length d.buf)
    then record { value = byte_at d.buf d.offs; coder = record d { offs = d.offs + 1 } }
    else record { value = 0; coder = d }

unfoldable pub read_byte_from_end : RangeDecoder → Decoded
read_byte_from_end d =
    if ltb d.end_offs (length d.buf)
    then record {
      value = byte_at d.buf (length d.buf - (d.end_offs + 1));
      coder = record d { end_offs = d.end_offs + 1 };
    }
    else record { value = 0; coder = d }

-- One round of `normalize`'s loop. Both bytes of `sym` are below 256, so that its `|` is a sum, and
-- `ecSymMax &^ uint32(sym)` is 255 less its low byte.
unfoldable pub shift_in : RangeDecoder → RangeDecoder
shift_in d =
    let read = read_byte d in
    let sym = (d.rem * 256 + read.value) / 2 in
    record read.coder {
      nbits_total = u32 (d.nbits_total + 8);
      rng = u32 (d.rng * 256);
      rem = read.value;
      val = u32 (u32 (d.val * 256) + (255 - sym % 256)) % ec_code_top;
    }

unfoldable pub normalize_on : ℕ → RangeDecoder → RangeDecoder
normalize_on zero d = d
normalize_on (suc fuel) d =
    let rest = normalize_on fuel (shift_in d) in if leb d.rng ec_code_bot then rest else d

-- A range that is not 0 takes three rounds at most; the code's loop has no end at 0.
unfoldable pub normalize : RangeDecoder → RangeDecoder
normalize d = normalize_on 3 d

-- `NewRangeDecoder` before its call of `normalize`.
abbrev pub blank : Bytes → RangeDecoder
blank buf = record {
  buf = buf;
  end_offs = 0;
  end_window = 0;
  nend_bits = 0;
  nbits_total = 9;
  offs = 0;
  rng = 128;
  val = 0;
  ext = 0;
  rem = 0;
  err = 0;
}

unfoldable pub first_byte_in : Bytes → RangeDecoder
first_byte_in buf =
    let read = read_byte (blank buf) in
    record read.coder { rem = read.value; val = sub32 127 (read.value / 2) }

unfoldable pub new_range_decoder : Bytes → RangeDecoder
new_range_decoder buf = normalize (first_byte_in buf)

-- `d.Err = 1; d.ext = 1; return 0`
abbrev pub failed : RangeDecoder → Decoded
failed d = record { value = 0; coder = record d { err = 1; ext = 1 } }

-- The end of `Decode` and `decodeBin`, behind their tests of the unit.
abbrev pub locate : ℕ → ℕ → RangeDecoder → Decoded
locate ext ft d =
    if ext == 0
    then failed d
    else record { value = ft - min (u32 (d.val / ext + 1)) ft; coder = record d { ext = ext } }

unfoldable pub decode : ℕ → RangeDecoder → Decoded
decode ft d = if ft == 0 then failed d else locate (d.rng / ft) ft d

unfoldable pub decode_bin : ℕ → RangeDecoder → Decoded
decode_bin bits d = locate (shr d.rng bits) (u32 (shl 1 bits)) d

-- The part of the range that `Update` takes.
unfoldable pub narrow_in : (fl fh ft : ℕ) → RangeDecoder → RangeDecoder
narrow_in fl fh ft d =
    let s = u32 (d.ext * sub32 ft fh) in
    record d {
      val = sub32 d.val s;
      rng = if ltb 0 fl then u32 (d.ext * sub32 fh fl) else sub32 d.rng s;
    }

unfoldable pub update : (fl fh ft : ℕ) → RangeDecoder → RangeDecoder
update fl fh ft d = normalize (narrow_in fl fh ft d)

unfoldable pub decode_raw_symbol : ℕ → RangeDecoder → Decoded
decode_raw_symbol nbits d =
    let read = decode_bin nbits d in
    record {
      value = read.value;
      coder = update read.value (u32 (read.value + 1)) (u32 (shl 1 nbits)) read.coder;
    }

unfoldable pub bit_logp : ℕ → RangeDecoder → Decoded
bit_logp logp d =
    let s = shr d.rng logp in
    if ltb d.val s then record { value = 1; coder = normalize (record d { rng = s }) } else record {
      value = 0;
      coder = normalize (record d { val = sub32 d.val s; rng = sub32 d.rng s });
    }
