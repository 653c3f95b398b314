-- ===== src/Mlow/Range/AnyInput.antt =====
-- A decoder of any bytes keeps its range, and what it reads under a table is a symbol of that table.
use meowcaller.Base.{
  ℕ, zero, suc, ◌+◌, ◌-◌, ◌*◌, ◌^◌, ◌≤◌, ◌<◌, bit_or, ◌≡◌, refl, sym, ◌∙◌, inl, inr, some, List, [],
  ◌∷◌, arith, ltb, leb, ltb→lt, leb→le, Bool-cases, All, Bytes, IsU32, IsBytes, u32, sub32, shr,
  shl,
}
use native.Mathlib.Nat.{pow-suc, one-le-pow, div-lt_iff_lt-mul, pow-le-pow_right}
use meowcaller.Mlow.Range.Decoder.{
  RangeDecoder, read_byte_from_end, new_range_decoder, update, decode, ilog, ec_window_size,
  ec_code_bot,
}
use meowcaller.Mlow.Range.Symbols.{decode_uint, uint_fine, uint_coarse, fill_window, refill, bits_n}
use meowcaller.Mlow.Range.Codec.{
  Symbol, by_cdf, by_icdf, one_bit, raw_symbol, uniform, fine_lag, decode_symbol, decode_all,
}
use meowcaller.Mlow.Range.End.{ilog-bounds}
use meowcaller.Mlow.Range.Bounds.{IsLoose, IsDecoder, new_range_decoder-IsDecoder}
use meowcaller.Mlow.Range.Reads.{
  IsTable, symbol_count, Reads, single-Reads, raw-Reads, fine-Reads, bit-Reads, cdf-Reads,
  icdf-Reads,
}

-- Raw bits come from the other end, and leave the range alone.
abbrev SameRange : (d d' : RangeDecoder) → Type 0
SameRange d d' = (d'.rng ≡ d.rng) × (d'.val ≡ d.val) × (d'.rem ≡ d.rem) × (d'.buf ≡ d.buf)

SameRange-IsDecoder : (d d' : RangeDecoder) → SameRange d d' → IsDecoder d → IsDecoder d'
unfolding IsDecoder IsLoose
SameRange-IsDecoder d d' (r, v, m, b) h = rw (r, v, m, b) h

fill_window-SameRange : (d : RangeDecoder) → SameRange d (fill_window d)
unfolding fill_window read_byte_from_end
fill_window-SameRange d = ground arith

refill-SameRange : (n : ℕ) (d : RangeDecoder) → SameRange d (refill n d)
unfolding refill
refill-SameRange zero d = (refl, refl, refl, refl)
refill-SameRange (suc n) d =
    let one = fill_window-SameRange d in
    let more = refill-SameRange n (fill_window d) in
    elim (Bool-cases (ltb (ec_window_size - 8) (fill_window d).nend_bits)) [
      | inl full ↦ rw full one
      | inr not_full ↦ rw not_full (more.0 ∙ one.0, more.1 ∙ one.1, more.2 ∙ one.2, more.3 ∙ one.3)
    ]

bits_n-SameRange : (n : ℕ) (d : RangeDecoder) → SameRange d (bits_n n d).coder
unfolding bits_n
bits_n-SameRange n d = elim (Bool-cases (ltb d.nend_bits n)) [
  | inl short ↦ rw short (refill-SameRange 4 d)
  | inr enough ↦ rw enough (refl, refl, refl, refl)
]

pow_eight : (k : ℕ) → 2 ^ (k + 8) ≡ 2 ^ k * 256
pow_eight k =
    let e : k + 8 ≡ suc (suc (suc (suc (suc (suc (suc (suc k))))))) = omega arith in
    rw e (
      omega (
        arith,
        pow-suc 2 k,
        pow-suc 2 (suc k),
        pow-suc 2 (suc (suc k)),
        pow-suc 2 (suc (suc (suc k))),
        pow-suc 2 (suc (suc (suc (suc k)))),
        pow-suc 2 (suc (suc (suc (suc (suc k))))),
        pow-suc 2 (suc (suc (suc (suc (suc (suc k)))))),
        pow-suc 2 (suc (suc (suc (suc (suc (suc (suc k))))))),
      ))

-- The upper bits of a number are eight.
upper_bits : (ft : ℕ) → 0 < ft → IsU32 ft → 8 < ilog ft → shr ft (ilog ft - 8) < 256
upper_bits ft pos small more =
    let k = ilog ft - 8 in
    let e : ilog ft ≡ k + 8 = omega arith in
    let b : ft < 2 ^ (k + 8) = rw (sym e) ((ilog-bounds ft pos small).0) in
    (div-lt_iff_lt-mul {k = 2 ^ k} {x = ft} {y = 256} (one-le-pow k 2 (omega arith))).1
      (omega (arith, pow_eight k, b))

lower_bits : (ft : ℕ) → 0 < ft → IsU32 ft → ilog ft ≤ 8 → ft < 256
lower_bits ft pos small few =
    let up = pow-le-pow_right {n = 2} (omega arith) {i = ilog ft} {j = 8} few in
    omega (arith, up, ilog-bounds ft pos small)

fine-uint :
    (ft : ℕ) (d : RangeDecoder)
    → IsDecoder d
    → 0 < ft
    → ft ≤ ec_code_bot
    → Reads ft (some (uint_fine ft d))
unfolding Reads uint_fine
fine-uint ft d h pos le = let s = single-Reads ft d h pos le in (uint_fine ft d, refl, s.0, s.1)

coarse-Reads :
    (ft ftb : ℕ) (d : RangeDecoder)
    → IsDecoder d
    → shr ft ftb < 256
    → Reads (ft + 1) (some (uint_coarse ft ftb d))
unfolding Reads uint_coarse
coarse-Reads ft ftb d h few =
    let t = u32 (shr ft ftb + 1) in
    let single = single-Reads t d h (omega arith) (omega arith) in
    let high = decode t d in
    let after = update high.value (u32 (high.value + 1)) t high.coder in
    let same = bits_n-SameRange ftb after in
    let low = bits_n ftb after in
    let kept = SameRange-IsDecoder after low.coder same single.1 in
    let v = bit_or (u32 (shl high.value ftb)) low.value in
    elim (Bool-cases (leb v ft)) [
      | inl fits ↦
          rw fits
            (record { value = v; coder = low.coder }, refl, omega (arith, leb→le v ft fits), kept)
      | inr large ↦ rw large (
        record { value = ft; coder = record low.coder { err = 1 } },
        refl,
        omega arith,
        SameRange-IsDecoder low.coder (record low.coder { err = 1 }) (refl, refl, refl, refl) kept,
      )
    ]

uniform-Reads :
    (v ft0 : ℕ) (d : RangeDecoder)
    → IsDecoder d
    → IsTable (uniform v ft0)
    → Reads ft0 (some (decode_uint ft0 d))
unfolding IsTable decode_uint
uniform-Reads v ft0 d h (from, small) =
    let ft = sub32 ft0 1 in
    let back : ft + 1 ≡ ft0 = omega arith in
    elim (Bool-cases (ltb 8 (ilog ft))) [
      | inl coarse ↦
          let few = upper_bits ft (omega arith) (omega arith) (ltb→lt 8 (ilog ft) coarse) in
          rw coarse (rw back at (coarse-Reads ft (ilog ft - 8) d h few))
      | inr fine ↦
          let few = lower_bits ft (omega arith) (omega arith) (ground arith) in
          let whole : u32 (ft + 1) ≡ ft0 = omega arith in
          rw (fine, whole) (fine-uint ft0 d h (omega arith) (omega arith))
    ]

symbol-Reads :
    (s : Symbol) (d : RangeDecoder)
    → IsDecoder d
    → IsTable s
    → Reads (symbol_count s) (decode_symbol s d)
unfolding decode_symbol symbol_count IsTable
symbol-Reads (by_cdf s cdf) d h t = cdf-Reads s cdf d h t
symbol-Reads (by_icdf s icdf ftb) d h t = icdf-Reads s icdf ftb d h t
symbol-Reads (one_bit b logp) d h t = bit-Reads logp d h t.0 t.1
symbol-Reads (raw_symbol v n) d h t = raw-Reads v n d h t
symbol-Reads (uniform v ft0) d h t = uniform-Reads v ft0 d h t
symbol-Reads (fine_lag v) d h t = fine-Reads d h

-- One value for each symbol, and each below the count of its table.
unfoldable pub InTables : List Symbol → List ℕ → Type 0
InTables [] [] = Unit
InTables [] (v ∷ vs) = ⊥
InTables (s ∷ ss) [] = ⊥
InTables (s ∷ ss) (v ∷ vs) = (v < symbol_count s) × InTables ss vs

every_read-InTables :
    (ss : List Symbol) (d : RangeDecoder)
    → IsDecoder d
    → All IsTable ss
    → (vs : List ℕ) × (decode_all ss d ≡ some vs) × InTables ss vs
unfolding decode_all InTables Reads
every_read-InTables [] d h t = ([], refl, tt)
every_read-InTables (s ∷ ss) d h (ts, t) =
    let read = symbol-Reads s d h ts in
    let more = every_read-InTables ss read.0.coder read.3 t in
    (read.0.value ∷ more.0, rw (read.1, more.1) refl, (read.2, more.2))

-- From any bytes, and for any row of reads by 16-bit tables that do not fall and end above their
-- start, inverse byte tables that do not rise and end in 0, bits, raw symbols of at most 23 bits,
-- uniform numbers and fine lags, the decoder reads no table out of range, and each value it
-- returns is one of the symbols of its table or size.
pub decode_all-InTables :
    (ss : List Symbol) (buf : Bytes)
    → IsBytes buf
    → All IsTable ss
    → (vs : List ℕ) × (decode_all ss (new_range_decoder buf) ≡ some vs) × InTables ss vs
decode_all-InTables ss buf bytes t =
    every_read-InTables ss (new_range_decoder buf) (new_range_decoder-IsDecoder buf bytes) t
