-- ===== src/Mlow/Range/Uniform.antt =====
-- The methods that read one of equally likely symbols, and that they are `Decode` and `Update`.
use meowcaller.Base.{
  ℕ, ◌+◌, ◌-◌, ◌/◌, ◌^◌, ◌≤◌, ◌<◌, min, ◌≡◌, refl, ap, ◌∙◌, inl, inr, false, some, arith, ltb, ◌==◌,
  Bool-cases, Bytes, IsU32, IsBytes, u32, sub32, shr, shl,
}
use native.Mathlib.Nat.{pow-le-pow_right, one-le-pow, div-le_self}
use meowcaller.Mlow.Range.Decoder.{
  RangeDecoder, update, decode, decode_bin, decode_raw_symbol, ilog, ec_code_bot,
}
use meowcaller.Mlow.Range.Symbols.{decode_uint, uint_fine, decode_64_fine_sym}
use meowcaller.Mlow.Range.Encoder.{RangeEncoder, encode}
use meowcaller.Mlow.Range.Flush.{encode_uint, encode_raw_symbol, encode_64_fine_sym}
use meowcaller.Mlow.Range.Carry.{digits}
use meowcaller.Mlow.Range.Step.{IsReady}
use meowcaller.Mlow.Range.End.{ilog-bounds}
use meowcaller.Mlow.Range.Codec.{
  raw_symbol, uniform, fine_lag, value_of, encode_symbol, decode_symbol, IsSymbol,
}
use meowcaller.Mlow.Range.Frequencies.{Step}
use meowcaller.Mlow.Range.Kinds.{single-Step}

pub pow_fits : (n : ℕ) → n ≤ 23 → (1 ≤ 2 ^ n) × (2 ^ n ≤ ec_code_bot)
pow_fits n h =
    (one-le-pow n 2 (omega arith), pow-le-pow_right {n = 2} (omega arith) {i = n} {j = 23} h)

pub one_shifted : (n : ℕ) → n ≤ 23 → u32 (shl 1 n) ≡ 2 ^ n
one_shifted n h = omega (arith, pow_fits n h)

-- `decodeBin` is `Decode` with a total that is a power of two.
pub decode_bin-decode : (n : ℕ) (d : RangeDecoder) → n ≤ 23 → decode_bin n d ≡ decode (2 ^ n) d
unfolding decode_bin decode
decode_bin-decode n d h =
    let nonzero : (2 ^ n == 0) ≡ false = ground (arith, pow_fits n h) in
    rw (nonzero, one_shifted n h) refl

pub decode_raw_symbol-decode :
    (n : ℕ) (d : RangeDecoder)
    → n ≤ 23
    → let read = decode (2 ^ n) d in
      decode_raw_symbol n d ≡ record {
        value = read.value;
        coder = update read.value (u32 (read.value + 1)) (2 ^ n) read.coder;
      }
unfolding decode_raw_symbol
decode_raw_symbol-decode n d h = rw (decode_bin-decode n d h, one_shifted n h) refl

decode_sixty_four :
    (d : RangeDecoder)
    → ec_code_bot < d.rng
    → IsU32 d.rng
    → d.val < d.rng
    → decode 64 d
      ≡ record { value = 63 - d.val / (d.rng / 64); coder = record d { ext = d.rng / 64 } }
unfolding decode
decode_sixty_four d big fits val =
    let unit : (d.rng / 64 == 0) ≡ false = ground arith in
    let small = div-le_self d.val (d.rng / 64) in
    let value : 64 - min (u32 (d.val / (d.rng / 64) + 1)) 64 ≡ 63 - d.val / (d.rng / 64) =
      omega arith in
    rw (unit, value) refl

-- On a decoder whose range is a word above 2^23 and whose value is below its range,
-- Decode64FineSym returns the value and leaves the decoder that DecodeRawSymbol with six bits
-- does.
pub decode_64-decode_raw :
    (d : RangeDecoder)
    → ec_code_bot < d.rng
    → IsU32 d.rng
    → d.val < d.rng
    → decode_64_fine_sym d ≡ decode_raw_symbol 6 d
unfolding decode_64_fine_sym
decode_64-decode_raw d big fits val =
    let ext = shr d.rng 6 in
    let unit : (ext == 0) ≡ false = ground arith in
    let next : u32 (63 - d.val / ext + 1) ≡ 63 - d.val / ext + 1 = omega arith in
    rw (unit, decode_raw_symbol-decode 6 d (omega arith), decode_sixty_four d big fits val, next)
      refl

pub few_values : (ft0 : ℕ) → 1 < ft0 → ft0 ≤ 256 → ilog (sub32 ft0 1) ≤ 8
few_values ft0 pos le =
    let x = sub32 ft0 1 in
    let b = ilog-bounds x (omega arith) (omega arith) in
    elim (Bool-cases (ltb 8 (ilog x))) [
      | inl large ↦
          let up = pow-le-pow_right {n = 2} (omega arith) {i = 9} {j = ilog x} (ground arith) in
          absurd (omega arith)
      | inr small ↦ ground arith
    ]

module _ (buf : Bytes) (e : RangeEncoder) where
  pub raw_symbol-Step :
      (v nbits : ℕ)
      → IsBytes buf
      → IsReady e
      → IsSymbol (raw_symbol v nbits)
      → digits e + 3 < 4294967296
      → Step buf (raw_symbol v nbits) e
  unfolding IsSymbol encode_symbol decode_symbol value_of encode_raw_symbol
  raw_symbol-Step v nbits bytes ready h few =
      single-Step buf v (2 ^ nbits) (raw_symbol v nbits) e bytes ready h.1 (pow_fits nbits h.0).1
        few refl (ap (λ (t : ℕ). encode v (u32 (v + 1)) t e) (one_shifted nbits h.0))
        (λ d big top val. ap some (decode_raw_symbol-decode nbits d h.0))

  pub fine_lag-Step :
      (v : ℕ)
      → IsBytes buf
      → IsReady e
      → IsSymbol (fine_lag v)
      → digits e + 3 < 4294967296
      → Step buf (fine_lag v) e
  unfolding IsSymbol encode_symbol decode_symbol value_of encode_64_fine_sym
  fine_lag-Step v bytes ready h few =
      single-Step buf v 64 (fine_lag v) e bytes ready h (omega arith) few refl refl
        (λ d big top val. ap some (
          decode_64-decode_raw d big (omega arith) val
          ∙ decode_raw_symbol-decode 6 d (omega arith)))

  pub uniform-Step :
      (fl ft0 : ℕ)
      → IsBytes buf
      → IsReady e
      → IsSymbol (uniform fl ft0)
      → digits e + 3 < 4294967296
      → Step buf (uniform fl ft0) e
  unfolding IsSymbol encode_symbol decode_symbol value_of encode_uint decode_uint uint_fine
  uniform-Step fl ft0 bytes ready h few =
      let small : ltb 8 (ilog (sub32 ft0 1)) ≡ false = ground (arith, few_values ft0 h.0 h.1) in
      let total : u32 (sub32 ft0 1 + 1) ≡ ft0 = omega arith in
      single-Step buf fl ft0 (uniform fl ft0) e bytes ready h.2 (omega arith) few refl
        (rw (small, total) refl) (λ d big top val. rw (small, total) refl)
