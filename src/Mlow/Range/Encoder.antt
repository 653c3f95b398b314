-- ===== src/Mlow/Range/Encoder.antt =====
-- `RangeEncoder`, which writes symbols toward the front of the buffer and raw bits toward its back.
use meowcaller.Base.{
  ℕ, zero, suc, ◌+◌, ◌-◌, ◌*◌, ◌/◌, ◌%◌, sym, Bool, true, false, ◌||◌, Option, none, some, List, [],
  ◌∷◌, ltb, leb, ◌==◌, if◌then◌else◌, length, replicate, Bytes, u8, u32, sub32, shr, bit, byte_at,
}
use meowcaller.Mlow.Range.Decoder.{ec_code_top, ec_code_bot}

-- `buf[i] = b`
unfoldable pub set_at : ℕ → ℕ → Bytes → Bytes
set_at i b [] = []
set_at zero b (x ∷ xs) = b ∷ xs
set_at (suc i) b (x ∷ xs) = x ∷ set_at i b xs

-- `e.storage` is the size of `e.buf` throughout; `e.rem` is `none` where it is -1, and `e.err` is
-- whether it is -1.
pub record RangeEncoder : Type 0 where
  pub buf : Bytes
  pub end_offs : ℕ
  pub end_window : ℕ
  pub nend_bits : ℕ
  pub nbits_total : ℕ
  pub offs : ℕ
  pub rng : ℕ
  pub val : ℕ
  pub ext : ℕ
  pub rem : Option ℕ
  pub err : Bool

unfoldable pub new_range_encoder : ℕ → RangeEncoder
new_range_encoder size = record {
  buf = replicate size 0;
  end_offs = 0;
  end_window = 0;
  nend_bits = 0;
  nbits_total = 33;
  offs = 0;
  rng = ec_code_top;
  val = 0;
  ext = 0;
  rem = none;
  err = false;
}

unfoldable pub write_byte : ℕ → RangeEncoder → RangeEncoder
write_byte b e =
    if ltb (e.offs + e.end_offs) (length e.buf)
    then record e { buf = set_at e.offs (u8 b) e.buf; offs = e.offs + 1 }
    else record e { err = true }

unfoldable pub write_byte_at_end : ℕ → RangeEncoder → RangeEncoder
write_byte_at_end b e =
    if ltb (e.offs + e.end_offs) (length e.buf)
    then record e {
      buf = set_at (length e.buf - (e.end_offs + 1)) (u8 b) e.buf;
      end_offs = e.end_offs + 1;
    }
    else record e { err = true }

-- The loop of `carryOut` over the bytes that wait for a carry.
unfoldable pub write_waiting : ℕ → ℕ → RangeEncoder → RangeEncoder
write_waiting zero sym e = e
write_waiting (suc n) sym e = write_waiting n sym (write_byte sym e)

abbrev pub write_rem : ℕ → Option ℕ → RangeEncoder → RangeEncoder
write_rem carry none e = e
write_rem carry (some rem) e = write_byte (rem + carry) e

-- `carryOut`; the argument is not negative, and its upper bits are the carry.
unfoldable pub carry_out : ℕ → RangeEncoder → RangeEncoder
carry_out c e =
    if c == 255
    then record e { ext = u32 (e.ext + 1) }
    else record (write_waiting e.ext ((255 + c / 256) % 256) (write_rem (c / 256) e.rem e)) {
      ext = 0;
      rem = some (c % 256);
    }

-- One round of `normalize`'s loop.
unfoldable pub shift_out : RangeEncoder → RangeEncoder
shift_out e = record (carry_out (e.val / ec_code_bot) e) {
  val = u32 (e.val * 256) % ec_code_top;
  rng = u32 (e.rng * 256);
  nbits_total = u32 (e.nbits_total + 8);
}

unfoldable pub normalize_on : ℕ → RangeEncoder → RangeEncoder
normalize_on zero e = e
normalize_on (suc fuel) e =
    let rest = normalize_on fuel (shift_out e) in if leb e.rng ec_code_bot then rest else e

-- A range that is not 0 takes three rounds at most; the code's loop has no end at 0.
unfoldable pub normalize : RangeEncoder → RangeEncoder
normalize e = normalize_on 3 e

-- The interval of a symbol, as `Encode` sets it.
unfoldable pub narrow : (fl fh ft : ℕ) → RangeEncoder → RangeEncoder
narrow fl fh ft e =
    let r = e.rng / ft in
    if ltb 0 fl
    then record e {
      val = u32 (e.val + sub32 e.rng (u32 (r * sub32 ft fl)));
      rng = u32 (r * sub32 fh fl);
    }
    else record e { rng = sub32 e.rng (u32 (r * sub32 ft fh)) }

unfoldable pub encode : (fl fh ft : ℕ) → RangeEncoder → RangeEncoder
encode fl fh ft e = if ft == 0 then record e { err = true } else normalize (narrow fl fh ft e)

-- `BitLogp`; the bit is whether `val` is not 0.
unfoldable pub encode_bit_logp : Bool → ℕ → RangeEncoder → RangeEncoder
encode_bit_logp bit logp e =
    let s = shr e.rng logp in
    let rest = sub32 e.rng s in
    if bit
    then normalize (record e { val = u32 (e.val + rest); rng = s })
    else normalize (record e { rng = rest })

-- `EncodeICDF`, whose table has the bytes `icdf[s - 1]` and `icdf[s]`.
unfoldable pub encode_icdf : ℕ → List ℕ → ℕ → RangeEncoder → RangeEncoder
encode_icdf s icdf ftb e =
    let r = shr e.rng ftb in
    if ltb 0 s
    then normalize (record e {
      val = u32 (e.val + sub32 e.rng (u32 (r * byte_at icdf (s - 1))));
      rng = u32 (r * ((byte_at icdf (s - 1) + 256 - byte_at icdf s) % 256));
    })
    else normalize (record e { rng = sub32 e.rng (u32 (r * byte_at icdf s)) })

-- `EncodeCDF` of a symbol that is not negative.
unfoldable pub encode_cdf : ℕ → List ℕ → RangeEncoder → RangeEncoder
encode_cdf s cdf e =
    let base = byte_at cdf 0 in
    let top = byte_at cdf (length cdf - 1) in
    if ltb (length cdf) 2 || leb (length cdf) (s + 1)
    then record e { err = true }
    else if leb top base
    then record e { err = true }
    else encode (sub32 (byte_at cdf s) base) (sub32 (byte_at cdf (s + 1)) base) (top - base) e
