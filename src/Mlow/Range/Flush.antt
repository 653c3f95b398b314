-- ===== src/Mlow/Range/Flush.antt =====
-- `RangeEncoder`: raw bits, uniform numbers, and `Done`.
use meowcaller.Base.{
  ℕ, zero, suc, ◌+◌, ◌-◌, ◌*◌, ◌/◌, ◌%◌, bit_or, sym, Bool, true, false, ◌||◌, Option, none, some,
  ltb, leb, ◌==◌, if◌then◌else◌, length, Bytes, u8, u32, sub32, shr, shl, low_bits, byte_at,
}
use meowcaller.Mlow.Range.Decoder.{ec_code_top, ec_code_bot, ec_window_size, ilog}
use meowcaller.Mlow.Range.Encoder.{RangeEncoder, set_at, write_byte_at_end, carry_out, encode}

-- The loop of `BitsN` that empties the window, whose `used` is at least 8 at its start: a count of
-- bits is at most 24, so that a window of 32 that overflows has more than 8. It takes four rounds.
unfoldable pub spill : ℕ → RangeEncoder → RangeEncoder
spill zero e = e
spill (suc fuel) e =
    let next : RangeEncoder = record (write_byte_at_end (e.end_window % 256) e) {
      end_window = e.end_window / 256;
      nend_bits = e.nend_bits - 8;
    } in
    let rest = spill fuel next in if ltb next.nend_bits 8 then next else rest

unfoldable pub write_bits_n : (fl n : ℕ) → RangeEncoder → RangeEncoder
write_bits_n fl n e =
    let ready = if ltb ec_window_size (e.nend_bits + n) then spill 4 e else e in
    record ready {
      end_window = bit_or ready.end_window (u32 (shl fl ready.nend_bits));
      nend_bits = ready.nend_bits + n;
      nbits_total = u32 (e.nbits_total + n);
    }

unfoldable pub encode_uint : (fl ft0 : ℕ) → RangeEncoder → RangeEncoder
encode_uint fl ft0 e =
    let ft = sub32 ft0 1 in
    let shift = ilog ft - 8 in
    let high = shr fl shift in
    if ltb 8 (ilog ft)
    then write_bits_n (low_bits fl shift) shift
        (encode high (u32 (high + 1)) (u32 (shr ft shift + 1)) e)
    else encode fl (u32 (fl + 1)) (u32 (ft + 1)) e

unfoldable pub encode_raw_symbol : (sym nbits : ℕ) → RangeEncoder → RangeEncoder
encode_raw_symbol sym nbits e = encode sym (u32 (sym + 1)) (u32 (shl 1 nbits)) e

unfoldable pub encode_64_fine_sym : ℕ → RangeEncoder → RangeEncoder
encode_64_fine_sym sym e = encode sym (u32 (sym + 1)) 64 e

-- The choice of `end` in `Done`: the count of bits `l`, and the least multiple of `msk + 1` from
-- `e.val` on. `msk + 1` is a power of two, so that `&^ msk` takes the remainder off and
-- `end | msk` is a sum.
pub record Ending : Type 0 where
  pub bits : ℕ
  pub end : ℕ

abbrev pub round_up : (val msk : ℕ) → ℕ
round_up val msk = u32 (val + msk) - u32 (val + msk) % (msk + 1)

unfoldable pub choose_end : RangeEncoder → Ending
choose_end e =
    let l = 32 - ilog e.rng in
    let msk = shr (ec_code_top - 1) l in
    let finer = msk / 2 in
    if leb (u32 (e.val + e.rng)) (round_up e.val msk + msk)
    then record { bits = l + 1; end = round_up e.val finer }
    else record { bits = l; end = round_up e.val msk }

-- The loop that writes `end`; `l` is at most 33, so that five rounds suffice.
unfoldable pub write_end : (fuel l end : ℕ) → RangeEncoder → RangeEncoder
write_end zero l end e = e
write_end (suc fuel) l end e =
    let rest =
      write_end fuel (l - 8) (u32 (end * 256) % ec_code_top) (carry_out (end / ec_code_bot) e) in
    if ltb 0 l then rest else e

-- The loop that writes whole bytes of raw bits, four of which fill the window.
unfoldable pub write_raw : ℕ → RangeEncoder → RangeEncoder
write_raw zero e = e
write_raw (suc fuel) e =
    let next : RangeEncoder = record (write_byte_at_end (e.end_window % 256) e) {
      end_window = e.end_window / 256;
      nend_bits = e.nend_bits - 8;
    } in
    let rest = write_raw fuel next in if leb 8 e.nend_bits then rest else e

unfoldable pub zero_fill : (n i : ℕ) → Bytes → Bytes
zero_fill zero i buf = buf
zero_fill (suc n) i buf = zero_fill n (i + 1) (set_at i 0 buf)

-- The end of `Done`: the gap is cleared and the last raw bits go into its last byte.
unfoldable pub fill_gap : RangeEncoder → RangeEncoder
fill_gap e =
    let gap = length e.buf - e.end_offs in
    let buf = zero_fill (gap - e.offs) e.offs e.buf in
    let last = gap - 1 in
    if e.err
    then e
    else if e.nend_bits == 0
    then record e { buf = buf }
    else if leb (length e.buf - e.offs) e.end_offs
    then record e { buf = buf; err = true }
    else record e { buf = set_at last (bit_or (byte_at buf last) (u8 e.end_window)) buf }

abbrev pub has_rem : Option ℕ → Bool
has_rem none = false
has_rem (some rem) = true

abbrev pub flush_rem : RangeEncoder → RangeEncoder
flush_rem e = if has_rem e.rem || ltb 0 e.ext then carry_out 0 e else e

-- `Done` changes `e.val` and the window in variables of its own, which no method reads afterwards.
unfoldable pub done : RangeEncoder → RangeEncoder
done e =
    let ending = choose_end e in
    fill_gap (write_raw 4 (flush_rem (write_end 5 ending.bits ending.end e)))

unfoldable pub consumed_len : RangeEncoder → ℕ
consumed_len e = e.offs + e.end_offs
