-- ===== src/Mlow/Range/Symbols.antt =====
-- The methods of `RangeDecoder` that read by a table, raw bits and uniform numbers.
use meowcaller.Base.{
  ℕ, zero, suc, ◌+◌, ◌-◌, ◌*◌, ◌/◌, bit_or, ◌||◌, Option, none, some, List, [], ◌∷◌, ltb, leb, ◌==◌,
  if◌then◌else◌, length, u32, sub32, shr, shl, low_bits, byte_at,
}
use meowcaller.Mlow.Range.Decoder.{
  RangeDecoder, Decoded, ec_window_size, ilog, read_byte_from_end, normalize, failed, decode,
  update,
}

-- Where a search in a table ends: the index, and the values on both sides of the symbol.
pub record Located : Type 0 where
  pub index : ℕ
  pub before : ℕ
  pub after : ℕ

-- The loop of `DecodeICDF`, at `ret` and the entries from there on; it stops at the last one.
unfoldable pub find_icdf : (r dv t ret : ℕ) → List ℕ → Located
find_icdf r dv t ret [] = record { index = ret; before = t; after = t }
find_icdf r dv t ret (x ∷ []) = record { index = ret; before = t; after = u32 (r * x) }
find_icdf r dv t ret (x ∷ y ∷ entries) =
    let s = u32 (r * x) in
    let more = find_icdf r dv s (ret + 1) (y ∷ entries) in
    if leb s dv then record { index = ret; before = t; after = s } else more

unfoldable pub decode_icdf : List ℕ → ℕ → RangeDecoder → Decoded
decode_icdf icdf ftb d =
    let found = find_icdf (shr d.rng ftb) d.val d.rng 0 icdf in
    if length icdf == 0 then record { value = 0; coder = record d { err = 1 } } else record {
      value = found.index;
      coder =
          normalize
            (record d { val = sub32 d.val found.after; rng = sub32 found.before found.after });
    }

-- The loop of `DecodeCDF`, at `k` and the entries from there on. `none` is the index out of range
-- that the code would read if no entry were above the target.
unfoldable pub find_cdf : (target k : ℕ) → List ℕ → Option Located
find_cdf target k [] = none
find_cdf target k (x ∷ []) = none
find_cdf target k (x ∷ y ∷ entries) =
    let more = find_cdf target (k + 1) (y ∷ entries) in
    if ltb target y then some (record { index = k; before = x; after = y }) else more

-- The end of `DecodeCDF`, with what the search found.
abbrev pub take_found : (base ft : ℕ) → RangeDecoder → Option Located → Option Decoded
take_found base ft d none = none
take_found base ft d (some f) =
    some
      (record { value = f.index; coder = update (sub32 f.before base) (sub32 f.after base) ft d })

unfoldable pub decode_cdf : List ℕ → RangeDecoder → Option Decoded
decode_cdf cdf d =
    let base = byte_at cdf 0 in
    let top = byte_at cdf (length cdf - 1) in
    let read = decode (top - base) d in
    if ltb (length cdf) 2 || leb top base
    then some (record { value = 0; coder = record d { err = 1 } })
    else take_found base (top - base) read.coder (find_cdf (u32 (base + read.value)) 0 cdf)

-- One round of the loop of `BitsN`.
unfoldable pub fill_window : RangeDecoder → RangeDecoder
fill_window d =
    let read = read_byte_from_end d in
    record read.coder {
      end_window = bit_or d.end_window (u32 (shl read.value d.nend_bits));
      nend_bits = u32 (d.nend_bits + 8);
    }

-- Each round takes a byte, and four fill the window.
unfoldable pub refill : ℕ → RangeDecoder → RangeDecoder
refill zero d = d
refill (suc fuel) d =
    let filled = fill_window d in
    let rest = refill fuel filled in
    if ltb (ec_window_size - 8) filled.nend_bits then filled else rest

unfoldable pub bits_n : ℕ → RangeDecoder → Decoded
bits_n n d =
    let full = if ltb d.nend_bits n then refill 4 d else d in
    record {
      value = low_bits full.end_window n;
      coder = record full {
        end_window = shr full.end_window n;
        nend_bits = sub32 full.nend_bits n;
        nbits_total = u32 (d.nbits_total + n);
      };
    }

-- The two branches of `DecodeUint`.
unfoldable pub uint_coarse : (ft ftb : ℕ) → RangeDecoder → Decoded
uint_coarse ft ftb d =
    let t = u32 (shr ft ftb + 1) in
    let high = decode t d in
    let low = bits_n ftb (update high.value (u32 (high.value + 1)) t high.coder) in
    let v = bit_or (u32 (shl high.value ftb)) low.value in
    if leb v ft
    then record { value = v; coder = low.coder }
    else record { value = ft; coder = record low.coder { err = 1 } }

unfoldable pub uint_fine : ℕ → RangeDecoder → Decoded
uint_fine ft d =
    let read = decode ft d in
    record { value = read.value; coder = update read.value (u32 (read.value + 1)) ft read.coder }

unfoldable pub decode_uint : ℕ → RangeDecoder → Decoded
decode_uint ft0 d =
    let ft = sub32 ft0 1 in
    if ltb 8 (ilog ft) then uint_coarse ft (ilog ft - 8) d else uint_fine (u32 (ft + 1)) d

-- `Decode64FineSym`; 63 less a number is never above 64, and stops at 0 as the code's test does.
unfoldable pub decode_64_fine_sym : RangeDecoder → Decoded
decode_64_fine_sym d =
    let ext = shr d.rng 6 in
    let sym = 63 - d.val / ext in
    if ext == 0
    then failed d
    else record { value = sym; coder = update sym (sym + 1) 64 (record d { ext = ext }) }

unfoldable pub tell : RangeDecoder → ℕ
tell d = sub32 d.nbits_total (ilog d.rng)
