-- ===== src/Mlow/Range/RoundTrip.antt =====
-- A run of symbols that `RangeEncoder` writes is read back by `RangeDecoder`; raw bits and uniform
-- numbers above 256 are not among the symbols.
use meowcaller.Base.{
  ℕ, ◌+◌, ◌*◌, ◌≤◌, ◌<◌, ◌≡◌, refl, false, some, List, [], ◌∷◌, map, arith, length, All, Bytes,
  IsU32, IsBytes, bit,
}
use meowcaller.Mlow.Range.Decoder.{RangeDecoder, new_range_decoder}
use meowcaller.Mlow.Range.Encoder.{RangeEncoder, new_range_encoder}
use meowcaller.Mlow.Range.Flush.{done}
use meowcaller.Mlow.Range.Digits.{zeros-IsBytes}
use meowcaller.Mlow.Range.Carry.{digits, count_rem}
use meowcaller.Mlow.Range.Interval.{Kept, Holds}
use meowcaller.Mlow.Range.Nested.{Kept-trans}
use meowcaller.Mlow.Range.Sync.{Sync}
use meowcaller.Mlow.Range.Step.{IsReady}
use meowcaller.Mlow.Range.Start.{new_range_encoder-IsReady, new-Sync}
use meowcaller.Mlow.Range.Finish.{done-ok, done-Holds}
use meowcaller.Mlow.Range.Output.{Kept-self}
use meowcaller.Mlow.Range.Codec.{
  Symbol, by_cdf, by_icdf, one_bit, raw_symbol, uniform, fine_lag, value_of, encode_symbol,
  encode_all, decode_all, IsSymbol,
}
use meowcaller.Mlow.Range.Fits.{
  HasRoom, HasRoom-le, HasRoom-ok, symbol-HasRoom, new-HasRoom, done-fits,
}
use meowcaller.Mlow.Range.Errors.{encode_all-ok}
use meowcaller.Mlow.Range.Frequencies.{Step}
use meowcaller.Mlow.Range.Kinds.{by_cdf-Step}
use meowcaller.Mlow.Range.Uniform.{raw_symbol-Step, uniform-Step, fine_lag-Step}
use meowcaller.Mlow.Range.BitStep.{one_bit-Step}
use meowcaller.Mlow.Range.IcdfStep.{by_icdf-Step}

symbol-Step :
    (buf : Bytes) (s : Symbol) (e : RangeEncoder)
    → IsBytes buf
    → IsReady e
    → IsSymbol s
    → digits e + 3 < 4294967296
    → Step buf s e
symbol-Step buf (by_cdf s cdf) e b r h few = by_cdf-Step buf s cdf e b r h few
symbol-Step buf (by_icdf s icdf ftb) e b r h few = by_icdf-Step buf s icdf ftb e b r h few
symbol-Step buf (one_bit bit logp) e b r h few = one_bit-Step buf bit logp e b r h few
symbol-Step buf (raw_symbol v n) e b r h few = raw_symbol-Step buf e v n b r h few
symbol-Step buf (uniform fl ft0) e b r h few = uniform-Step buf e fl ft0 b r h few
symbol-Step buf (fine_lag v) e b r h few = fine_lag-Step buf e v b r h few

-- A run of symbols, from any place on.
unfoldable pub Run : Bytes → List Symbol → RangeEncoder → Type 0
Run buf ss e =
    ((encode_all ss e).err ≡ false)
    → (e.err ≡ false)
      × IsReady (encode_all ss e)
      × (digits (encode_all ss e) ≤ digits e + 3 * length ss)
      × Kept e (encode_all ss e)
      × (Holds buf (encode_all ss e) → Holds buf e)
      × ((d : RangeDecoder)
          → Holds buf (encode_all ss e)
          → Sync buf e d
          → decode_all ss d ≡ some (map value_of ss))

symbols-Run :
    (buf : Bytes) (ss : List Symbol) (e : RangeEncoder)
    → IsBytes buf
    → IsReady e
    → All IsSymbol ss
    → digits e + 3 * length ss < 4294967296
    → Run buf ss e
unfolding Run encode_all decode_all Step
symbols-Run buf [] e bytes ready h few ok =
    (ok, ready, omega arith, Kept-self e, λ t. t, λ d holds sync. refl)
symbols-Run buf (s ∷ ss) e bytes ready (hs, h) few ok =
    let e' = encode_symbol s e in
    let step = symbol-Step buf s e bytes ready hs (omega arith) (encode_all-ok ss e' h ok) in
    let run = symbols-Run buf ss e' bytes step.1 h (omega (arith, step.2)) ok in
    (
      step.0,
      run.1,
      omega (arith, step.2, run.2),
      Kept-trans e e' (encode_all ss e') step.3 run.3,
      λ holds. step.4 (run.4 holds),
      λ d holds sync.
          let read = step.5 d (run.4 holds) sync in rw (read.1, run.5 read.0 holds read.2) refl,
    )

new-digits : (size : ℕ) → digits (new_range_encoder size) ≡ 0
unfolding digits count_rem new_range_encoder
new-digits size = refl

new-IsBytes : (size : ℕ) → IsBytes (new_range_encoder size).buf
unfolding new_range_encoder
new-IsBytes size = zeros-IsBytes size

-- The encoder at the end of a run, in front of `Done`.
done-run :
    (ss : List Symbol) (size : ℕ)
    → All IsSymbol ss
    → 3 * length ss + 6 < 4294967296
    → let last = encode_all ss (new_range_encoder size) in
      ((done last).err ≡ false) → Holds (done last).buf last × IsBytes (done last).buf
unfolding Run Kept new_range_encoder
done-run ss size h few ok =
    let e = new_range_encoder size in
    let start = new-digits size in
    let run =
      symbols-Run [] ss e tt (new_range_encoder-IsReady size) h (omega (arith, start))
        (done-ok (encode_all ss e) ok) in
    let ends =
      done-Holds (encode_all ss e) run.1 (omega (arith, start, run.2)) run.3.2 run.3.1 ok in
    (ends.0, ends.1 (run.3.4 (new-IsBytes size)))

-- The place that a run takes.
run-HasRoom :
    (ss : List Symbol) (n : ℕ) (e : RangeEncoder)
    → IsReady e
    → All IsSymbol ss
    → digits e + 3 * length ss < 4294967296
    → HasRoom e (3 * length ss + n)
    → HasRoom (encode_all ss e) n
unfolding encode_all Step
run-HasRoom [] n e ready h few room = HasRoom-le (3 * 0 + n) n e (omega arith) room
run-HasRoom (s ∷ ss) n e ready (hs, h) few room =
    let more = 3 * length ss + n in
    let room' =
      symbol-HasRoom s more e ready hs
        (HasRoom-le (3 * length (s ∷ ss) + n) (3 + more) e (omega arith) room) in
    let step =
      symbol-Step [] s e tt ready hs (omega arith) (HasRoom-ok more (encode_symbol s e) room') in
    run-HasRoom ss n (encode_symbol s e) step.1 h (omega (arith, step.2)) room'

-- Symbols of any kinds, by frequency tables that do not fall and give them a share, by inverse
-- tables that do not rise, single bits, raw symbols, uniform numbers out of at most 256 and fine
-- lags, that are encoded in a row into a buffer with three bytes for each symbol and six more are
-- encoded without an error, and the decoder of the finished buffer reads the same values in the
-- same order.
pub decode_all-encode_all :
    (ss : List Symbol) (size : ℕ)
    → All IsSymbol ss
    → 3 * length ss + 6 ≤ size
    → IsU32 size
    → let coded = done (encode_all ss (new_range_encoder size)) in
      (coded.err ≡ false) × (decode_all ss (new_range_decoder coded.buf) ≡ some (map value_of ss))
unfolding Run
decode_all-encode_all ss size h fits small =
    let e = new_range_encoder size in
    let coded = done (encode_all ss e) in
    let start = new-digits size in
    let ready = new_range_encoder-IsReady size in
    let room = HasRoom-le size (3 * length ss + 6) e fits (new-HasRoom size) in
    let ok = done-fits (encode_all ss e) (run-HasRoom ss 6 e ready h (omega (arith, start)) room) in
    let ends = done-run ss size h (omega arith) ok in
    let run =
      symbols-Run coded.buf ss e ends.1 ready h (omega (arith, start))
        (done-ok (encode_all ss e) ok) in
    (ok, run.5 (new_range_decoder coded.buf) ends.0 (new-Sync coded.buf size ends.1))
