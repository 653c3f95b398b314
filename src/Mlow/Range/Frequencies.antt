-- ===== src/Mlow/Range/Frequencies.antt =====
-- The kinds of symbols that `Encode` writes: what is written is read.
use meowcaller.Base.{ℕ, ◌+◌, ◌-◌, ◌/◌, ◌≤◌, ◌<◌, ◌≡◌, false, some, arith, Bytes, IsBytes}
use meowcaller.Mlow.Range.Decoder
use meowcaller.Mlow.Range.Decoder.{
  RangeDecoder, Decoded, narrow_in, update, decode, ec_code_top, ec_code_bot,
}
use meowcaller.Mlow.Range.Encoder.{RangeEncoder, encode}
use meowcaller.Mlow.Range.Carry.{digits}
use meowcaller.Mlow.Range.Interval.{IsLive, Kept, Holds}
use meowcaller.Mlow.Range.Sync.{SyncAt, Sync}
use meowcaller.Mlow.Range.Step.{IsReady, TakesPart, Coded}
use meowcaller.Mlow.Range.Split.{IsInterval, part_start, part_width}
use meowcaller.Mlow.Range.Symbol.{encode-Coded, decode_lem, narrow_in-TakesPart}
use meowcaller.Mlow.Range.Codec.{Symbol, value_of, encode_symbol, decode_symbol}

-- What a symbol does to the encoder, and to each decoder that keeps up with it.
unfoldable pub Step : Bytes → (s : Symbol) → (e : RangeEncoder) → Type 0
Step buf s e =
    ((encode_symbol s e).err ≡ false)
    → (e.err ≡ false)
      × IsReady (encode_symbol s e)
      × (digits (encode_symbol s e) ≤ digits e + 3)
      × Kept e (encode_symbol s e)
      × (Holds buf (encode_symbol s e) → Holds buf e)
      × ((d : RangeDecoder)
          → Holds buf (encode_symbol s e)
          → Sync buf e d
          → (d' : RangeDecoder) × (decode_symbol s d
              ≡ some (record { value = value_of s; coder = d' }))
            × Sync buf (encode_symbol s e) d')

-- How a decoder finds the symbol of a part of the range.
unfoldable pub Finds : (a w : ℕ) (s : Symbol) (e : RangeEncoder) → Type 0
Finds a w s e =
    (d : RangeDecoder)
    → d.rng ≡ e.rng
    → e.rng - a - w ≤ d.val
    → d.val < e.rng - a
    → (d' : RangeDecoder) × (decode_symbol s d
        ≡ some (record { value = value_of s; coder = Decoder.normalize d' }))
      × TakesPart a w e d d'

pub found-Step :
    (buf : Bytes) (a w : ℕ) (s : Symbol) (e : RangeEncoder)
    → Coded buf a w e (encode_symbol s e)
    → Finds a w s e
    → Step buf s e
unfolding Step Finds Coded Sync SyncAt
found-Step buf a w s e coded finds ok =
    let c = coded ok in
    (
      c.0,
      c.1,
      c.2,
      c.3,
      c.4,
      λ d holds sync.
          let window = c.5 d holds sync in
          let f = finds d sync.1 window.0 window.1 in
          (Decoder.normalize f.0, f.1, c.6 d f.0 holds sync f.2),
    )

-- A symbol with the frequencies `fl` to `fh` out of `ft`.
pub frequency-Step :
    (buf : Bytes) (fl fh ft : ℕ) (s : Symbol) (e : RangeEncoder)
    → IsBytes buf
    → IsReady e
    → IsInterval fl fh ft
    → digits e + 3 < 4294967296
    → encode_symbol s e ≡ encode fl fh ft e
    → ((d : RangeDecoder)
        → ec_code_bot < d.rng
        → d.rng ≤ ec_code_top
        → d.val < d.rng
        → fl ≤ (decode ft d).value
        → (decode ft d).value < fh
        → (decode ft d).coder ≡ record d { ext = d.rng / ft }
        → decode_symbol s d
          ≡ some (record {
            value = value_of s;
            coder = update fl fh ft (record d { ext = d.rng / ft });
          }))
    → Step buf s e
unfolding Finds IsReady IsLive update
frequency-Step buf fl fh ft s e bytes ready h few same reads =
    found-Step buf (part_start fl fh ft e.rng) (part_width fl fh ft e.rng) s e
      (rw same (encode-Coded buf fl fh ft e bytes ready h few))
      (λ d rng from to.
        let read = decode_lem fl fh ft d h (omega arith) (omega arith) (rw rng from) (rw rng to) in
        (
          narrow_in fl fh ft (record d { ext = d.rng / ft }),
          reads d (omega arith) (omega arith) (omega arith) read.0 read.1 read.2,
          narrow_in-TakesPart fl fh ft e d h ready rng from (omega arith),
        ))
