-- ===== src/Mlow/Range/Bounds.antt =====
-- What a decoder keeps on any bytes: the range is scaled, and the value is in it.
use meowcaller.Base.{
  ℕ, zero, suc, ◌+◌, ◌-◌, ◌*◌, ◌/◌, ◌≤◌, ◌<◌, min, ◌≡◌, refl, inl, inr, false, arith, ltb, leb,
  ◌==◌, ltb→lt, leb→le, Bool-cases, Bytes, IsU8, IsBytes, byte_at-IsU8,
}
use native.Mathlib.Nat.{div-le_self, mul-le-mul_left, lt-mul-div-succ, mul-div-le}
use meowcaller.Mlow.Range.Decoder.{
  RangeDecoder, read_byte, shift_in, normalize_on, normalize, first_byte_in, blank,
  new_range_decoder, narrow_in, update, decode, ec_code_top, ec_code_bot,
}
use meowcaller.Mlow.Range.Nested.{grown}
use meowcaller.Mlow.Range.Split.{IsInterval, u32-lt, unit_facts}
use meowcaller.Mlow.Range.Symbol.{products}

-- A decoder in front of `normalize`, and behind it.
unfoldable pub IsLoose : RangeDecoder → Type 0
IsLoose d = (0 < d.rng) × (d.rng ≤ ec_code_top) × (d.val < d.rng) × (d.rem < 256) × IsBytes d.buf

unfoldable pub IsDecoder : RangeDecoder → Type 0
IsDecoder d = IsLoose d × (ec_code_bot < d.rng)

read_byte-IsU8 :
    (d : RangeDecoder)
    → IsBytes d.buf
    → IsU8 (read_byte d).value
      × ((read_byte d).coder.buf ≡ d.buf)
      × ((read_byte d).coder.rng ≡ d.rng)
unfolding read_byte
read_byte-IsU8 d h = ground (arith, byte_at-IsU8 d.offs d.buf h)

shift_in-IsLoose : (d : RangeDecoder) → IsLoose d → d.rng ≤ ec_code_bot → IsLoose (shift_in d)
unfolding IsLoose shift_in
shift_in-IsLoose d h small =
    let read = read_byte-IsU8 d h.4 in
    (omega arith, omega arith, omega arith, read.0, rw read.1 h.4)

shifted_rng : (d : RangeDecoder) → d.rng ≤ ec_code_bot → (shift_in d).rng ≡ d.rng * 256
unfolding shift_in
shifted_rng d le = omega arith

normalize_on-IsLoose :
    (n : ℕ) (d : RangeDecoder)
    → IsLoose d
    → IsLoose (normalize_on n d)
      × (ec_code_bot < grown n d.rng → ec_code_bot < (normalize_on n d).rng)
unfolding normalize_on grown
normalize_on-IsLoose zero d h = (h, λ t. t)
normalize_on-IsLoose (suc n) d h = elim (Bool-cases (leb d.rng ec_code_bot)) [
  | inl small ↦
      let le = leb→le d.rng ec_code_bot small in
      let rest = normalize_on-IsLoose n (shift_in d) (shift_in-IsLoose d h le) in
      let same = shifted_rng d le in rw small (rest.0, λ t. rest.1 (rw same t))
  | inr large ↦ rw large (h, λ t. ground arith)
]

pub normalize-IsDecoder : (d : RangeDecoder) → IsLoose d → IsDecoder (normalize d)
unfolding normalize IsDecoder IsLoose grown
normalize-IsDecoder d h = let n = normalize_on-IsLoose 3 d h in (n.0, n.1 (omega arith))

pub new_range_decoder-IsDecoder : (buf : Bytes) → IsBytes buf → IsDecoder (new_range_decoder buf)
unfolding new_range_decoder first_byte_in IsLoose
new_range_decoder-IsDecoder buf h =
    let read = read_byte-IsU8 (blank buf) h in
    normalize-IsDecoder (first_byte_in buf)
      (omega (arith, read), omega (arith, read), omega (arith, read), read.0, rw read.1 h)

-- `Decode` finds a unit.
pub decode_unit :
    (ft : ℕ) (d : RangeDecoder)
    → IsDecoder d
    → 0 < ft
    → ft ≤ ec_code_bot
    → decode ft d ≡ record {
      value = ft - min (d.val / (d.rng / ft) + 1) ft;
      coder = record d { ext = d.rng / ft };
    }
unfolding decode IsDecoder IsLoose
decode_unit ft d h pos le =
    let r = d.rng / ft in
    let unit = unit_facts 0 ft ft d.rng (pos, omega arith, le) h.1 in
    let nonzero : (ft == 0) ≡ false = ground arith in
    let some_unit : (r == 0) ≡ false = ground (arith, unit) in
    let whole = u32-lt (d.val / r + 1) (omega (arith, div-le_self d.val r)) in
    rw (nonzero, some_unit, whole) refl

-- Where the value is, from the number that `Decode` finds.
value_place :
    (fl fh ft : ℕ) (d : RangeDecoder)
    → IsDecoder d
    → IsInterval fl fh ft
    → fl ≤ (decode ft d).value
    → (decode ft d).value < fh
    → (d.rng / ft * (ft - fh) ≤ d.val) × (0 < fl → d.val < d.rng / ft * (ft - fl))
unfolding IsDecoder
value_place fl fh ft d h i from to =
    let r = d.rng / ft in
    let q = d.val / r in
    let unit = unit_facts fl fh ft d.rng i h.1 in
    let e = decode_unit ft d h (omega arith) i.2 in
    let from' : fl ≤ ft - min (q + 1) ft = rw e at from in
    let to' : ft - min (q + 1) ft < fh = rw e at to in
    (
      omega (arith, mul-le-mul_left {m = ft - fh} {n = q} r (omega arith), mul-div-le d.val r),
      λ pos. omega (
        arith,
        mul-le-mul_left {m = q + 1} {n = ft - fl} r (omega arith),
        lt-mul-div-succ d.val unit.0,
      ),
    )

-- An update with an interval around that number keeps a decoder.
pub update-IsDecoder :
    (fl fh ft : ℕ) (d : RangeDecoder)
    → IsDecoder d
    → IsInterval fl fh ft
    → fl ≤ (decode ft d).value
    → (decode ft d).value < fh
    → IsDecoder (update fl fh ft (decode ft d).coder)
unfolding IsDecoder IsLoose update narrow_in
update-IsDecoder fl fh ft d h i from to =
    let place = value_place fl fh ft d h i from to in
    let p = products fl fh ft d.rng i h.1 h.0.1 in
    let facts = unit_facts fl fh ft d.rng i h.1 in
    let e = decode_unit ft d h (omega arith) i.2 in
    rw e (
      normalize-IsDecoder (narrow_in fl fh ft (record d { ext = d.rng / ft }))
        (elim (Bool-cases (ltb 0 fl)) [
          | inl pos ↦
              let below = place.1 (ltb→lt 0 fl pos) in
              rw pos (
                omega (arith, p, facts),
                omega (arith, p, facts),
                omega (arith, p, facts, place, below),
                h.0.3,
                h.0.4,
              )
          | inr first ↦ rw first (
            omega (arith, p, facts),
            omega (arith, p, facts),
            omega (arith, p, facts, place),
            h.0.3,
            h.0.4,
          )
        ]))
