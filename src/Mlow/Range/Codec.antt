-- ===== src/Mlow/Range/Codec.antt =====
-- Symbols of all the kinds that the range coder writes to the front of its buffer, and runs of
-- them, as a frame's encoder and decoder make them.
use meowcaller.Base.{
  ℕ, suc, ◌-◌, ◌^◌, ◌≤◌, ◌<◌, sym, Bool, Option, some, List, [], ◌∷◌, if◌then◌else◌, ◌>>=◌, length,
  All, IsU16, IsBytes, byte_at,
}
use meowcaller.Mlow.Range.Decoder
use meowcaller.Mlow.Range.Decoder.{RangeDecoder, Decoded, decode_raw_symbol, ec_code_bot}
use meowcaller.Mlow.Range.Symbols.{decode_cdf, decode_icdf, decode_uint, decode_64_fine_sym}
use meowcaller.Mlow.Range.Encoder.{RangeEncoder, encode_bit_logp, encode_icdf, encode_cdf}
use meowcaller.Mlow.Range.Flush.{encode_uint, encode_raw_symbol, encode_64_fine_sym}

-- A symbol with the table or the size that both sides know.
pub data Symbol : Type 0 where
  by_cdf : ℕ → List ℕ → Symbol
  by_icdf : ℕ → List ℕ → ℕ → Symbol
  one_bit : Bool → ℕ → Symbol
  raw_symbol : ℕ → ℕ → Symbol
  uniform : ℕ → ℕ → Symbol
  fine_lag : ℕ → Symbol

unfoldable pub value_of : Symbol → ℕ
value_of (by_cdf s cdf) = s
value_of (by_icdf s icdf ftb) = s
value_of (one_bit b logp) = if b then 1 else 0
value_of (raw_symbol sym nbits) = sym
value_of (uniform fl ft0) = fl
value_of (fine_lag sym) = sym

unfoldable pub encode_symbol : Symbol → RangeEncoder → RangeEncoder
encode_symbol (by_cdf s cdf) e = encode_cdf s cdf e
encode_symbol (by_icdf s icdf ftb) e = encode_icdf s icdf ftb e
encode_symbol (one_bit b logp) e = encode_bit_logp b logp e
encode_symbol (raw_symbol sym nbits) e = encode_raw_symbol sym nbits e
encode_symbol (uniform fl ft0) e = encode_uint fl ft0 e
encode_symbol (fine_lag sym) e = encode_64_fine_sym sym e

-- The decoder's side; it does not read the value.
unfoldable pub decode_symbol : Symbol → RangeDecoder → Option Decoded
decode_symbol (by_cdf s cdf) d = decode_cdf cdf d
decode_symbol (by_icdf s icdf ftb) d = some (decode_icdf icdf ftb d)
decode_symbol (one_bit b logp) d = some (Decoder.bit_logp logp d)
decode_symbol (raw_symbol sym nbits) d = some (decode_raw_symbol nbits d)
decode_symbol (uniform fl ft0) d = some (decode_uint ft0 d)
decode_symbol (fine_lag sym) d = some (decode_64_fine_sym d)

unfoldable pub encode_all : List Symbol → RangeEncoder → RangeEncoder
encode_all [] e = e
encode_all (s ∷ ss) e = encode_all ss (encode_symbol s e)

unfoldable pub decode_all : List Symbol → RangeDecoder → Option (List ℕ)
decode_all [] d = some []
decode_all (s ∷ ss) d = do
  read ← decode_symbol s d
  values ← decode_all ss read.coder
  some (read.value ∷ values)

-- Tables that do not fall, and tables that do not rise.
unfoldable pub Rising : List ℕ → Type 0
Rising [] = Unit
Rising (x ∷ []) = Unit
Rising (x ∷ y ∷ xs) = (x ≤ y) × Rising (y ∷ xs)

unfoldable pub Falling : List ℕ → Type 0
Falling [] = Unit
Falling (x ∷ []) = Unit
Falling (x ∷ y ∷ xs) = (y ≤ x) × Falling (y ∷ xs)

-- What the code's callers see to: the symbol is one of the table's and has a share of it. The
-- bounds on counts of bits keep a unit for each symbol.
unfoldable pub IsSymbol : Symbol → Type 0
IsSymbol (by_cdf s cdf) =
    All IsU16 cdf × Rising cdf × (suc s < length cdf) × (byte_at cdf s < byte_at cdf (suc s))
IsSymbol (by_icdf s icdf ftb) =
    IsBytes icdf
    × Falling icdf
    × (s < length icdf)
    × (ftb ≤ 8)
    × (byte_at icdf 0 < 2 ^ ftb)
    × (0 < s → byte_at icdf s < byte_at icdf (s - 1))
IsSymbol (one_bit b logp) = (1 ≤ logp) × (logp ≤ 23)
IsSymbol (raw_symbol sym nbits) = (nbits ≤ 23) × (sym < 2 ^ nbits)
IsSymbol (uniform fl ft0) = (1 < ft0) × (ft0 ≤ 256) × (fl < ft0)
IsSymbol (fine_lag sym) = sym < 64
