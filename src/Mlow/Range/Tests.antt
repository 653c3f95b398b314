-- ===== src/Mlow/Range/Tests.antt =====
-- Runs of the range coder, and the theorems at concrete inputs.
use meowcaller.Base.{ℕ, ◌≡◌, true, false, Option, none, some, List, [], ◌∷◌, arith, All, Bytes}
use meowcaller.Mlow.Range.Decoder.{
  RangeDecoder, new_range_decoder, blank, decode_raw_symbol, bit_logp,
}
use meowcaller.Mlow.Range.Symbols.{decode_cdf, decode_icdf, decode_uint, decode_64_fine_sym}
use meowcaller.Mlow.Range.Encoder.{
  RangeEncoder, new_range_encoder, encode_cdf, encode_icdf, encode_bit_logp,
}
use meowcaller.Mlow.Range.Flush.{encode_uint, encode_raw_symbol, done}
use meowcaller.Mlow.Range.Codec.{
  Symbol, by_cdf, by_icdf, one_bit, raw_symbol, uniform, fine_lag, value_of, encode_all, decode_all,
  IsSymbol, Rising, Falling,
}
use meowcaller.Mlow.Range.RoundTrip.{decode_all-encode_all}
use meowcaller.Mlow.Range.Reads.{IsTable}
use meowcaller.Mlow.Range.AnyInput.{InTables, decode_all-InTables}
use meowcaller.Mlow.Range.Uniform.{decode_64-decode_raw}

abbrev sample_cdf : List ℕ
sample_cdf = 0 ∷ 100 ∷ 1000 ∷ 30000 ∷ 32768 ∷ []

abbrev sample_icdf : List ℕ
sample_icdf = 200 ∷ 100 ∷ 3 ∷ 0 ∷ []

abbrev samples : List Symbol
samples =
    by_cdf 0 sample_cdf
    ∷ one_bit true 3
    ∷ raw_symbol 9 5
    ∷ by_icdf 2 sample_icdf 8
    ∷ uniform 70 100
    ∷ fine_lag 63
    ∷ by_cdf 3 sample_cdf
    ∷ []

samples-IsSymbol : All IsSymbol samples
unfolding IsSymbol Rising Falling
samples-IsSymbol = ground arith

samples-IsTable : All IsTable samples
unfolding IsTable Rising Falling
samples-IsTable = ground arith

decode_all-encode_all_example :
    let coded = done (encode_all samples (new_range_encoder 40)) in
    (coded.err ≡ false)
    × (decode_all samples (new_range_decoder coded.buf) ≡ some (0 ∷ 1 ∷ 9 ∷ 2 ∷ 70 ∷ 63 ∷ 3 ∷ []))
unfolding value_of
decode_all-encode_all_example =
    decode_all-encode_all samples 40 samples-IsSymbol (omega arith) (omega arith)

abbrev stray_bytes : Bytes
stray_bytes = 200 ∷ 17 ∷ 255 ∷ 3 ∷ 90 ∷ []

decode_all-InTables_example :
    (vs : List ℕ) × (decode_all samples (new_range_decoder stray_bytes) ≡ some vs)
    × InTables samples vs
decode_all-InTables_example = decode_all-InTables samples stray_bytes (omega arith) samples-IsTable

abbrev sample_decoder : RangeDecoder
sample_decoder = record (blank stray_bytes) { rng = 900000000; val = 123456789; rem = 17; offs = 2 }

decode_64-decode_raw_example :
    decode_64_fine_sym sample_decoder ≡ decode_raw_symbol 6 sample_decoder
decode_64-decode_raw_example =
    decode_64-decode_raw sample_decoder (omega arith) (omega arith) (omega arith)

-- A run with raw bits behind the symbols.
abbrev encoded : RangeEncoder
encoded = done (
    encode_uint 70000 100000 (
      encode_icdf 2 sample_icdf 8 (
        encode_raw_symbol 9 5
          (encode_bit_logp true 3 (encode_cdf 0 sample_cdf (new_range_encoder 12))))))

abbrev read_back : Option (List ℕ)
read_back = elim (decode_cdf sample_cdf (new_range_decoder encoded.buf)) [
  | none ↦ none
  | some a ↦
      let b = bit_logp 3 a.coder in
      let c = decode_raw_symbol 5 b.coder in
      let d = decode_icdf sample_icdf 8 c.coder in
      let e = decode_uint 100000 d.coder in
      some (a.value ∷ b.value ∷ c.value ∷ d.value ∷ e.value ∷ [])
]
