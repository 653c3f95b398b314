-- ===== src/Mlow/Range/Errors.antt =====
-- The error of an encoder is sticky.
use meowcaller.Base.{
  ℕ, zero, suc, ◌/◌, ◌≡◌, inl, inr, true, false, List, [], ◌∷◌, arith, ltb, leb, Bool-cases, All,
  sub32,
}
use meowcaller.Mlow.Range.Decoder.{ilog, ec_code_bot}
use meowcaller.Mlow.Range.Encoder.{
  RangeEncoder, shift_out, normalize_on, normalize, narrow, encode, encode_bit_logp, encode_icdf,
  encode_cdf,
}
use meowcaller.Mlow.Range.Flush.{encode_uint, encode_raw_symbol, encode_64_fine_sym}
use meowcaller.Mlow.Range.Carry.{carry_out-ok}
use meowcaller.Mlow.Range.Codec.{
  Symbol, by_cdf, by_icdf, one_bit, raw_symbol, uniform, fine_lag, encode_symbol, encode_all,
  IsSymbol,
}
use meowcaller.Mlow.Range.Kinds.{encode_cdf_lem}
use meowcaller.Mlow.Range.Uniform.{few_values}

normalize_on-ok : (n : ℕ) (e : RangeEncoder) → (normalize_on n e).err ≡ false → e.err ≡ false
unfolding normalize_on shift_out
normalize_on-ok zero e ok = ok
normalize_on-ok (suc n) e ok = elim (Bool-cases (leb e.rng ec_code_bot)) [
  | inl small ↦
      carry_out-ok (e.val / ec_code_bot) e (normalize_on-ok n (shift_out e) (rw small at ok))
  | inr large ↦ rw large at ok
]

normalize-ok : (e : RangeEncoder) → (normalize e).err ≡ false → e.err ≡ false
unfolding normalize
normalize-ok e ok = normalize_on-ok 3 e ok

encode-ok : (fl fh ft : ℕ) (e : RangeEncoder) → (encode fl fh ft e).err ≡ false → e.err ≡ false
unfolding encode narrow
encode-ok fl fh ft e ok = ground (arith, normalize-ok (narrow fl fh ft e))

symbol-ok :
    (s : Symbol) (e : RangeEncoder) → IsSymbol s → (encode_symbol s e).err ≡ false → e.err ≡ false
unfolding encode_symbol IsSymbol encode_cdf encode_icdf encode_bit_logp encode_raw_symbol
    encode_uint encode_64_fine_sym
symbol-ok (by_cdf s cdf) e h ok = encode-ok _ _ _ e (rw (encode_cdf_lem s cdf e h) at ok)
symbol-ok (by_icdf s icdf ftb) e h ok = elim (Bool-cases (ltb 0 s)) [
  | inl later ↦ normalize-ok _ (rw later at ok)
  | inr first ↦ normalize-ok _ (rw first at ok)
]
symbol-ok (one_bit true logp) e h ok = normalize-ok _ ok
symbol-ok (one_bit false logp) e h ok = normalize-ok _ ok
symbol-ok (raw_symbol v n) e h ok = encode-ok _ _ _ e ok
symbol-ok (uniform fl ft0) e h ok =
    let small : ltb 8 (ilog (sub32 ft0 1)) ≡ false = ground (arith, few_values ft0 h.0 h.1) in
    encode-ok _ _ _ e (rw small at ok)
symbol-ok (fine_lag v) e h ok = encode-ok _ _ _ e ok

pub encode_all-ok :
    (ss : List Symbol) (e : RangeEncoder)
    → All IsSymbol ss
    → (encode_all ss e).err ≡ false
    → e.err ≡ false
unfolding encode_all
encode_all-ok [] e h ok = ok
encode_all-ok (s ∷ ss) e (hs, h) ok = symbol-ok s e hs (encode_all-ok ss (encode_symbol s e) h ok)
