-- ===== src/Mlow/Range/Fits.antt =====
-- An encoder with a buffer that is large enough ends without an error.
use meowcaller.Base.{
  ℕ, zero, suc, ◌+◌, ◌-◌, ◌*◌, ◌/◌, ◌%◌, ◌^◌, ◌≤◌, ◌<◌, ◌≡◌, refl, inl, inr, false, ◌||◌, Option,
  none, some, arith, ltb, leb, ◌==◌, Bool-cases, length, length-replicate, u8, u32, sub32,
}
use meowcaller.Mlow.Range.Decoder.{ilog, ec_code_top, ec_code_bot}
use meowcaller.Mlow.Range.Encoder.{
  RangeEncoder, write_byte, write_waiting, write_rem, carry_out, shift_out, normalize_on, normalize,
  encode, new_range_encoder,
}
use meowcaller.Mlow.Range.Flush.{
  choose_end, write_end, fill_gap, has_rem, flush_rem, done, encode_uint, encode_raw_symbol,
  encode_64_fine_sym,
}
use meowcaller.Mlow.Range.Digits.{length-set_at}
use meowcaller.Mlow.Range.Carry.{digits, count_rem}
use meowcaller.Mlow.Range.Step.{IsReady, take_part}
use meowcaller.Mlow.Range.Symbol.{encode_lem}
use meowcaller.Mlow.Range.Split.{u32-lt}
use meowcaller.Mlow.Range.Codec.{
  Symbol, by_cdf, by_icdf, one_bit, raw_symbol, uniform, fine_lag, encode_symbol, IsSymbol,
}
use meowcaller.Mlow.Range.Kinds.{cdf_order, encode_cdf_lem}
use meowcaller.Mlow.Range.Uniform.{pow_fits, one_shifted, few_values}
use meowcaller.Mlow.Range.BitStep.{encode_bit_lem}
use meowcaller.Mlow.Range.IcdfStep.{encode_icdf_lem}
use meowcaller.Mlow.Range.Finish.{no_raw}

-- No error yet, and place for `n` bytes.
abbrev HasPlace : RangeEncoder → ℕ → Type 0
HasPlace e n = (e.err ≡ false) × (e.end_offs ≡ 0) × (e.nend_bits ≡ 0) × (e.offs + n ≤ length e.buf)

write_byte-HasPlace :
    (b n : ℕ) (e : RangeEncoder) → HasPlace e (suc n) → HasPlace (write_byte b e) n
unfolding write_byte
write_byte-HasPlace b n e h = ground (arith, length-set_at e.offs (u8 b) e.buf)

write_waiting-HasPlace :
    (k b n : ℕ) (e : RangeEncoder) → HasPlace e (k + n) → HasPlace (write_waiting k b e) n
unfolding write_waiting
write_waiting-HasPlace zero b n e h = (h.0, h.1, h.2, omega arith)
write_waiting-HasPlace (suc k) b n e h =
    write_waiting-HasPlace k b n (write_byte b e)
      (write_byte-HasPlace b (k + n) e (h.0, h.1, h.2, omega arith))

write_rem-HasPlace :
    (k : ℕ) (rem : Option ℕ) (n : ℕ) (e : RangeEncoder)
    → HasPlace e (count_rem rem + n)
    → HasPlace (write_rem k rem e) n
unfolding count_rem
write_rem-HasPlace k none n e h = (h.0, h.1, h.2, omega arith)
write_rem-HasPlace k (some r) n e h = write_byte-HasPlace (r + k) n e (h.0, h.1, h.2, omega arith)

-- Place for the digits that are out, and `n` more.
unfoldable pub HasRoom : RangeEncoder → ℕ → Type 0
HasRoom e n = (e.err ≡ false) × (e.end_offs ≡ 0) × (e.nend_bits ≡ 0) × (digits e + n ≤ length e.buf)

pub HasRoom-le : (m n : ℕ) (e : RangeEncoder) → n ≤ m → HasRoom e m → HasRoom e n
unfolding HasRoom
HasRoom-le m n e le h = (h.0, h.1, h.2, omega arith)

pub HasRoom-ok : (n : ℕ) (e : RangeEncoder) → HasRoom e n → e.err ≡ false
unfolding HasRoom
HasRoom-ok n e h = h.0

carry_out-HasRoom : (c n : ℕ) (e : RangeEncoder) → HasRoom e (suc n) → HasRoom (carry_out c e) n
unfolding HasRoom digits carry_out count_rem
carry_out-HasRoom c n e h = elim (Bool-cases (c == 255)) [
  | inl waits ↦ rw waits (h.0, h.1, h.2, omega arith)
  | inr writes ↦
      let front =
        write_rem-HasPlace (c / 256) e.rem (e.ext + suc n) e (h.0, h.1, h.2, omega arith) in
      let all =
        write_waiting-HasPlace e.ext ((255 + c / 256) % 256) (suc n) (write_rem (c / 256) e.rem e)
          front in
      rw writes (all.0, all.1, all.2, omega arith)
]

shift_out-HasRoom : (n : ℕ) (e : RangeEncoder) → HasRoom e (suc n) → HasRoom (shift_out e) n
unfolding HasRoom digits shift_out
shift_out-HasRoom n e h = carry_out-HasRoom (e.val / ec_code_bot) n e h

normalize_on-HasRoom :
    (k n : ℕ) (e : RangeEncoder) → HasRoom e (k + n) → HasRoom (normalize_on k e) n
unfolding normalize_on
normalize_on-HasRoom zero n e h = HasRoom-le (0 + n) n e (omega arith) h
normalize_on-HasRoom (suc k) n e h = elim (Bool-cases (leb e.rng ec_code_bot)) [
  | inl small ↦ rw small (
      normalize_on-HasRoom k n (shift_out e)
        (shift_out-HasRoom (k + n) e (HasRoom-le (suc k + n) (suc (k + n)) e (omega arith) h)))
  | inr large ↦ rw large (HasRoom-le (suc k + n) n e (omega arith) h)
]

-- Each symbol takes a part of the interval and scales it.
IsScaled : RangeEncoder → RangeEncoder → Type 0
IsScaled e e' = (a : ℕ) × (w : ℕ) × (e' ≡ normalize (take_part a w e))

single-IsScaled :
    (v ft : ℕ) (e : RangeEncoder)
    → IsReady e
    → v < ft
    → ft ≤ ec_code_bot
    → IsScaled e (encode v (u32 (v + 1)) ft e)
unfolding IsScaled
single-IsScaled v ft e ready lt le =
    rw (u32-lt (v + 1) (omega arith))
      (_, _, encode_lem v (v + 1) ft e (omega arith, omega arith, le) ready)

symbol-IsScaled :
    (s : Symbol) (e : RangeEncoder) → IsReady e → IsSymbol s → IsScaled e (encode_symbol s e)
unfolding IsScaled IsSymbol encode_symbol encode_raw_symbol encode_64_fine_sym encode_uint
symbol-IsScaled (by_cdf s cdf) e ready h =
    let o = cdf_order s cdf h in
    rw (encode_cdf_lem s cdf e h)
      (_, _, encode_lem _ _ _ e (omega (arith, o), omega (arith, o), omega (arith, o)) ready)
symbol-IsScaled (by_icdf s icdf ftb) e ready h = (_, _, encode_icdf_lem s icdf ftb e h ready)
symbol-IsScaled (one_bit b logp) e ready h = (_, _, encode_bit_lem b logp e h ready)
symbol-IsScaled (raw_symbol v n) e ready h =
    rw (one_shifted n h.0) (single-IsScaled v (2 ^ n) e ready h.1 (pow_fits n h.0).1)
symbol-IsScaled (uniform fl ft0) e ready h =
    let small : ltb 8 (ilog (sub32 ft0 1)) ≡ false = ground (arith, few_values ft0 h.0 h.1) in
    let total : u32 (sub32 ft0 1 + 1) ≡ ft0 = omega arith in
    rw (small, total) (single-IsScaled fl ft0 e ready h.2 (omega arith))
symbol-IsScaled (fine_lag v) e ready h = single-IsScaled v 64 e ready h (omega arith)

pub symbol-HasRoom :
    (s : Symbol) (n : ℕ) (e : RangeEncoder)
    → IsReady e
    → IsSymbol s
    → HasRoom e (3 + n)
    → HasRoom (encode_symbol s e) n
unfolding IsScaled normalize HasRoom digits
symbol-HasRoom s n e ready h room =
    let part = symbol-IsScaled s e ready h in
    rw part.2 (normalize_on-HasRoom 3 n (take_part part.0 part.1 e) room)

write_end-HasRoom :
    (k l end : ℕ) (e : RangeEncoder) → HasRoom e (k + 1) → HasRoom (write_end k l end e) 1
unfolding write_end
write_end-HasRoom zero l end e h = HasRoom-le (0 + 1) 1 e (omega arith) h
write_end-HasRoom (suc k) l end e h = elim (Bool-cases (ltb 0 l)) [
  | inl more ↦
      let c = end / ec_code_bot in
      rw more (
        write_end-HasRoom k (l - 8) (u32 (end * 256) % ec_code_top) (carry_out c e)
          (carry_out-HasRoom c (k + 1) e (HasRoom-le (suc k + 1) (suc (k + 1)) e (omega arith) h)))
  | inr stop ↦ rw stop (HasRoom-le (suc k + 1) 1 e (omega arith) h)
]

flush_rem-HasRoom : (e : RangeEncoder) → HasRoom e 1 → HasRoom (flush_rem e) 0
flush_rem-HasRoom e h = elim (Bool-cases (has_rem e.rem || ltb 0 e.ext)) [
  | inl t ↦ rw t (carry_out-HasRoom 0 0 e h)
  | inr t ↦ rw t (HasRoom-le 1 0 e (omega arith) h)
]

gap-ok : (e : RangeEncoder) → e.err ≡ false → e.nend_bits ≡ 0 → (fill_gap e).err ≡ false
unfolding fill_gap
gap-ok e ok bits = ground arith

-- `Done` takes six bytes at most.
pub done-fits : (e : RangeEncoder) → HasRoom e 6 → (done e).err ≡ false
unfolding done HasRoom
done-fits e room =
    let c = choose_end e in
    let e2 = write_end 5 c.bits c.end e in
    let e3 = flush_rem e2 in
    let last = flush_rem-HasRoom e2 (write_end-HasRoom 5 c.bits c.end e room) in
    rw (no_raw e3 last.2) (gap-ok e3 last.0 last.2)

pub new-HasRoom : (size : ℕ) → HasRoom (new_range_encoder size) size
unfolding new_range_encoder HasRoom digits count_rem
new-HasRoom size = (refl, refl, refl, omega (arith, length-replicate {A = ℕ} size 0))
