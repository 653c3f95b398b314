-- ===== src/Mlow/Range/Reads.antt =====
-- A read of each kind of symbol on any bytes.
use meowcaller.Base.{
  ℕ, ◌+◌, ◌-◌, ◌^◌, ◌≤◌, ◌<◌, ◌≡◌, refl, inl, inr, false, ◌||◌, Option, some, List, arith, ltb, leb,
  ◌==◌, ltb→lt, Bool-cases, length, All, IsU16, IsU32, IsBytes, u32, sub32, shr, byte_at,
}
use native.Mathlib.Nat.{mul-le-mul_left}
use meowcaller.Mlow.Range.Decoder.{
  RangeDecoder, Decoded, normalize, bit_logp, update, decode, decode_raw_symbol, ec_code_bot,
}
use meowcaller.Mlow.Range.Symbols.{find_icdf, decode_cdf, decode_icdf, decode_64_fine_sym}
use meowcaller.Mlow.Range.Split.{u32-lt, sub32-le}
use meowcaller.Mlow.Range.Codec.{
  Symbol, by_cdf, by_icdf, one_bit, raw_symbol, uniform, fine_lag, Rising, Falling,
}
use meowcaller.Mlow.Range.Uniform.{pow_fits, decode_raw_symbol-decode, decode_64-decode_raw}
use meowcaller.Mlow.Range.BitStep.{ones_share}
use meowcaller.Mlow.Range.Kinds.{entry-IsU16}
use meowcaller.Mlow.Range.IcdfStep.{entry_below}
use meowcaller.Mlow.Range.Bounds.{
  IsLoose, IsDecoder, normalize-IsDecoder, decode_unit, update-IsDecoder,
}
use meowcaller.Mlow.Range.Limits.{
  last_of, FoundIn, find_cdf-FoundIn, FoundBelow, find_icdf-FoundBelow,
}

-- The tables and sizes of a symbol, whatever its value.
unfoldable pub IsTable : Symbol → Type 0
IsTable (by_cdf s cdf) =
    All IsU16 cdf × Rising cdf × (2 ≤ length cdf) × (byte_at cdf 0 < last_of cdf)
IsTable (by_icdf s icdf ftb) =
    IsBytes icdf
    × Falling icdf
    × (0 < length icdf)
    × (last_of icdf ≡ 0)
    × (ftb ≤ 8)
    × (byte_at icdf 0 < 2 ^ ftb)
IsTable (one_bit b logp) = (1 ≤ logp) × (logp ≤ 23)
IsTable (raw_symbol v nbits) = nbits ≤ 23
IsTable (uniform v ft0) = (1 < ft0) × IsU32 ft0
IsTable (fine_lag v) = Unit

-- The number of symbols that a table or a size has.
unfoldable pub symbol_count : Symbol → ℕ
symbol_count (by_cdf s cdf) = length cdf - 1
symbol_count (by_icdf s icdf ftb) = length icdf
symbol_count (one_bit b logp) = 2
symbol_count (raw_symbol v nbits) = 2 ^ nbits
symbol_count (uniform v ft0) = ft0
symbol_count (fine_lag v) = 64

-- A read that returns one of the symbols, and a decoder.
unfoldable pub Reads : (count : ℕ) → Option Decoded → Type 0
Reads count o = (read : Decoded) × (o ≡ some read) × (read.value < count) × IsDecoder read.coder

-- A read of one of `ft` equally likely symbols.
pub single-Reads :
    (ft : ℕ) (d : RangeDecoder)
    → IsDecoder d
    → 0 < ft
    → ft ≤ ec_code_bot
    → let read = decode ft d in
      (read.value < ft) × IsDecoder (update read.value (u32 (read.value + 1)) ft read.coder)
single-Reads ft d h pos le =
    let read = decode ft d in
    let small : read.value < ft = rw (decode_unit ft d h pos le) (omega arith) in
    let next = u32-lt (read.value + 1) (omega arith) in
    (
      small,
      rw next (
          update-IsDecoder read.value (read.value + 1) ft d h (omega arith, omega arith, le)
            (omega arith) (omega arith)),
    )

pub raw-Reads :
    (v n : ℕ) (d : RangeDecoder)
    → IsDecoder d
    → n ≤ 23
    → Reads (2 ^ n) (some (decode_raw_symbol n d))
unfolding Reads
raw-Reads v n d h le =
    let p = pow_fits n le in
    let s = single-Reads (2 ^ n) d h p.0 p.1 in
    (
      decode_raw_symbol n d,
      refl,
      rw (decode_raw_symbol-decode n d le) s.0,
      rw (decode_raw_symbol-decode n d le) s.1,
    )

pub fine-Reads : (d : RangeDecoder) → IsDecoder d → Reads 64 (some (decode_64_fine_sym d))
unfolding IsDecoder IsLoose
fine-Reads d h =
    rw (decode_64-decode_raw d h.1 (omega arith) h.0.2) (raw-Reads 0 6 d h (omega arith))

pub bit-Reads :
    (logp : ℕ) (d : RangeDecoder)
    → IsDecoder d
    → 1 ≤ logp
    → logp ≤ 23
    → Reads 2 (some (bit_logp logp d))
unfolding Reads IsDecoder IsLoose bit_logp
bit-Reads logp d h from to =
    let share = ones_share logp d.rng from to h.1 in
    elim (Bool-cases (ltb d.val (shr d.rng logp))) [
      | inl one ↦
          let below = ltb→lt d.val (shr d.rng logp) one in
          rw one (
            record { value = 1; coder = normalize (record d { rng = shr d.rng logp }) },
            refl,
            omega arith,
            normalize-IsDecoder (record d { rng = shr d.rng logp })
                (share.0, omega (arith, share), below, h.0.3, h.0.4),
          )
      | inr zero_bit ↦
          let above : shr d.rng logp ≤ d.val = ground arith in
          let d' : RangeDecoder = record d {
            val = sub32 d.val (shr d.rng logp);
            rng = sub32 d.rng (shr d.rng logp);
          } in
          rw zero_bit (
            record { value = 0; coder = normalize d' },
            refl,
            omega arith,
            normalize-IsDecoder d'
                (omega (arith, share), omega (arith, share), omega (arith, share), h.0.3, h.0.4),
          )
    ]

pub cdf-Reads :
    (s : ℕ) (cdf : List ℕ) (d : RangeDecoder)
    → IsDecoder d
    → IsTable (by_cdf s cdf)
    → Reads (length cdf - 1) (decode_cdf cdf d)
unfolding Reads IsTable decode_cdf FoundIn
cdf-Reads s cdf d h (small, rising, long, share) =
    let base = byte_at cdf 0 in
    let ft = last_of cdf - base in
    let top = entry-IsU16 (length cdf - 1) cdf small in
    let read = decode ft d in
    let single = single-Reads ft d h (omega arith) (omega arith) in
    let usable : (ltb (length cdf) 2 || leb (last_of cdf) base) ≡ false = ground arith in
    let target : u32 (base + read.value) ≡ base + read.value = omega (arith, single.0) in
    let found =
      find_cdf-FoundIn (base + read.value) 0 cdf rising (omega arith) (omega (arith, single.0)) in
    let f = found.0 in
    let i = found.2 in
    let low_end = sub32-le f.before base (omega (arith, i)) (omega (arith, i)) in
    let high_end = sub32-le f.after base (omega (arith, i)) (omega (arith, i)) in
    rw (usable, target, found.1)
      (
        record {
          value = f.index;
          coder = update (sub32 f.before base) (sub32 f.after base) ft read.coder;
        },
        refl,
        omega (arith, i),
        rw (low_end, high_end)
            (update-IsDecoder (f.before - base) (f.after - base) ft d h
              (omega (arith, i), omega (arith, i), omega arith) (omega (arith, i))
              (omega (arith, i))),
      )

pub icdf-Reads :
    (s : ℕ) (icdf : List ℕ) (ftb : ℕ) (d : RangeDecoder)
    → IsDecoder d
    → IsTable (by_icdf s icdf ftb)
    → Reads (length icdf) (some (decode_icdf icdf ftb d))
unfolding Reads IsTable decode_icdf FoundBelow IsDecoder IsLoose
icdf-Reads s icdf ftb d h (bytes, falling, some_entry, last, le, first) =
    let r = shr d.rng ftb in
    let below = entry_below 0 icdf ftb d.rng falling first le h.1 some_entry in
    let f = find_icdf r d.val d.rng 0 icdf in
    let i =
      find_icdf-FoundBelow r d.val d.rng 0 icdf falling some_entry last
        (λ x le'. omega (arith, mul-le-mul_left r le', below)) (omega (arith, below)) h.0.2 in
    let table : (length icdf == 0) ≡ false = ground arith in
    let d' : RangeDecoder = record d { val = sub32 d.val f.after; rng = sub32 f.before f.after } in
    rw table (
      record { value = f.index; coder = normalize d' },
      refl,
      omega (arith, i),
      normalize-IsDecoder d' (omega (arith, i), omega (arith, i), omega (arith, i), h.0.3, h.0.4),
    )
