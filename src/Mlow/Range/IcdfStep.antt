-- ===== src/Mlow/Range/IcdfStep.antt =====
-- The step of a symbol of an inverse table.
use meowcaller.Base.{
  ℕ, zero, suc, ◌+◌, ◌-◌, ◌*◌, ◌%◌, ◌^◌, ◌≤◌, ◌<◌, ◌≡◌, refl, ap, ◌∙◌, true, false, some, List, [],
  ◌∷◌, arith, ltb, ◌==◌, lt→ltb, length, Bytes, IsBytes, u32, sub32, shr, byte_at, byte_at-IsU8,
}
use native.Mathlib.Nat.{mul-add, mul-pos, mul-le-mul_left, div-mul-le_self, le-div_iff_mul-le}
use meowcaller.Mlow.Range.Decoder
use meowcaller.Mlow.Range.Decoder.{RangeDecoder, Decoded, bit_logp, ec_code_top, ec_code_bot}
use meowcaller.Mlow.Range.Symbols.{decode_icdf}
use meowcaller.Mlow.Range.Encoder
use meowcaller.Mlow.Range.Encoder.{RangeEncoder, encode_bit_logp, encode_icdf}
use meowcaller.Mlow.Range.Carry.{digits}
use meowcaller.Mlow.Range.Interval.{IsLive}
use meowcaller.Mlow.Range.Step.{IsReady, IsPart, take_part, part-Coded}
use meowcaller.Mlow.Range.Split.{u32-lt}
use meowcaller.Mlow.Range.Symbol.{same_part}
use meowcaller.Mlow.Range.Codec.{by_icdf, value_of, encode_symbol, decode_symbol, IsSymbol, Falling}
use meowcaller.Mlow.Range.Search.{Falling-le, before_at, Above, find_icdf-finds}
use meowcaller.Mlow.Range.Frequencies.{Step, Finds, found-Step}
use meowcaller.Mlow.Range.Uniform.{pow_fits}

-- The entry before a symbol's own bounds its part, and the range itself bounds the first one.
abbrev icdf_start : (r rng : ℕ) → List ℕ → ℕ → ℕ
icdf_start r rng icdf zero = 0
icdf_start r rng icdf (suc s) = rng - r * byte_at icdf s

abbrev icdf_width : (r rng : ℕ) → List ℕ → ℕ → ℕ
icdf_width r rng icdf zero = rng - r * byte_at icdf 0
icdf_width r rng icdf (suc s) = r * (byte_at icdf s - byte_at icdf (suc s))

pub icdf_unit : (ftb rng : ℕ) → ftb ≤ 8 → ec_code_bot < rng → 0 < shr rng ftb
icdf_unit ftb rng le big =
    let p = pow_fits ftb (omega arith) in
    (le-div_iff_mul-le {k = 2 ^ ftb} {x = 1} {y = rng} (omega arith)).1 (omega (arith, p))

-- No product with an entry reaches the range.
pub entry_below :
    (j : ℕ) (icdf : List ℕ) (ftb rng : ℕ)
    → Falling icdf
    → byte_at icdf 0 < 2 ^ ftb
    → ftb ≤ 8
    → ec_code_bot < rng
    → j < length icdf
    → shr rng ftb * byte_at icdf j < rng
entry_below j [] ftb rng h first le big lt = absurd (omega arith)
entry_below j (x ∷ xs) ftb rng h first le big lt =
    let r = shr rng ftb in
    omega (
      arith,
      mul-le-mul_left r (Falling-le x xs j h lt),
      mul-le-mul_left {m = x + 1} {n = 2 ^ ftb} r (omega arith),
      mul-add r x 1,
      div-mul-le_self rng (2 ^ ftb),
      icdf_unit ftb rng le big,
    )

-- The share of a symbol that is not the first.
entry_share : (r x y : ℕ) → 0 < r → y < x → (r * x ≡ r * y + r * (x - y)) × (0 < r * (x - y))
entry_share r x y pos lt =
    let e : x ≡ y + (x - y) = omega arith in
    (ap (λ (t : ℕ). r * t) e ∙ mul-add r y (x - y), mul-pos pos (omega arith))

icdf_facts :
    (s : ℕ) (icdf : List ℕ) (ftb rng : ℕ)
    → IsSymbol (by_icdf (suc s) icdf ftb)
    → ec_code_bot < rng
    → let r = shr rng ftb in
      (r * byte_at icdf s < rng)
      × (r * byte_at icdf s
          ≡ r * byte_at icdf (suc s) + r * (byte_at icdf s - byte_at icdf (suc s)))
      × (0 < r * (byte_at icdf s - byte_at icdf (suc s)))
      × (byte_at icdf s < 256)
      × (byte_at icdf (suc s) < byte_at icdf s)
unfolding IsSymbol
icdf_facts s icdf ftb rng (bytes, falling, lt, le, first, share) big =
    let e : suc s - 1 ≡ s = omega arith in
    let less : byte_at icdf (suc s) < byte_at icdf s = rw e at (share (omega arith)) in
    let split =
      entry_share (shr rng ftb) (byte_at icdf s) (byte_at icdf (suc s)) (icdf_unit ftb rng le big)
        less in
    (
      entry_below s icdf ftb rng falling first le big (omega arith),
      split.0,
      split.1,
      byte_at-IsU8 s icdf bytes,
      less,
    )

icdf-IsPart :
    (s : ℕ) (icdf : List ℕ) (ftb : ℕ) (e : RangeEncoder)
    → IsSymbol (by_icdf s icdf ftb)
    → IsReady e
    → let r = shr e.rng ftb in IsPart (icdf_start r e.rng icdf s) (icdf_width r e.rng icdf s) e
unfolding IsSymbol IsReady
icdf-IsPart zero icdf ftb e h ready =
    let below = entry_below 0 icdf ftb e.rng h.1 h.4 h.3 ready.1 h.2 in omega (arith, below)
icdf-IsPart (suc s) icdf ftb e h ready = omega (arith, icdf_facts s icdf ftb e.rng h ready.1)

pub encode_icdf_lem :
    (s : ℕ) (icdf : List ℕ) (ftb : ℕ) (e : RangeEncoder)
    → IsSymbol (by_icdf s icdf ftb)
    → IsReady e
    → let r = shr e.rng ftb in
      encode_icdf s icdf ftb e
      ≡ Encoder.normalize (take_part (icdf_start r e.rng icdf s) (icdf_width r e.rng icdf s) e)
unfolding encode_icdf IsSymbol IsReady IsLive
encode_icdf_lem zero icdf ftb e h ready =
    let below = entry_below 0 icdf ftb e.rng h.1 h.4 h.3 ready.1 h.2 in
    ap Encoder.normalize (same_part e (omega arith) (omega (arith, below)))
encode_icdf_lem (suc s) icdf ftb e h ready =
    let r = shr e.rng ftb in
    let x = byte_at icdf s in
    let y = byte_at icdf (suc s) in
    let f = icdf_facts s icdf ftb e.rng h ready.1 in
    let later : ltb 0 (suc s) ≡ true = lt→ltb 0 (suc s) (omega arith) in
    let before : suc s - 1 ≡ s = omega arith in
    let whole = u32-lt (r * x) (omega (arith, f)) in
    let byte : (x + 256 - y) % 256 ≡ x - y = omega (arith, f) in
    let part = u32-lt (r * (x - y)) (omega (arith, f)) in
    rw (later, before, whole, byte, part)
      (ap Encoder.normalize (same_part e (omega (arith, f)) refl))

-- The decoder after a symbol, before its range is scaled.
abbrev icdf_after : (s : ℕ) (icdf : List ℕ) (ftb : ℕ) → RangeDecoder → RangeDecoder
icdf_after s icdf ftb d =
    let r = shr d.rng ftb in
    record d {
      val = sub32 d.val (u32 (r * byte_at icdf s));
      rng = sub32 (before_at r d.rng icdf s) (u32 (r * byte_at icdf s));
    }

decode_icdf_lem :
    (s : ℕ) (icdf : List ℕ) (ftb : ℕ) (d : RangeDecoder)
    → IsSymbol (by_icdf s icdf ftb)
    → ec_code_bot < d.rng
    → d.rng ≤ ec_code_top
    → shr d.rng ftb * byte_at icdf s ≤ d.val
    → Above (shr d.rng ftb) d.val icdf s
    → decode_icdf icdf ftb d
      ≡ record { value = s; coder = Decoder.normalize (icdf_after s icdf ftb d) }
unfolding decode_icdf IsSymbol
decode_icdf_lem s icdf ftb d h big top from to =
    let r = shr d.rng ftb in
    let table : (length icdf == 0) ≡ false = ground (arith, h.2) in
    let index : 0 + s ≡ s = omega arith in
    let found =
      find_icdf-finds r d.val d.rng 0 s icdf h.1 h.2
        (λ j lt. omega (arith, entry_below j icdf ftb d.rng h.1 h.4 h.3 big lt)) from to in
    rw (table, found, index) refl

icdf-Finds :
    (s : ℕ) (icdf : List ℕ) (ftb : ℕ) (e : RangeEncoder)
    → IsSymbol (by_icdf s icdf ftb)
    → IsReady e
    → let r = shr e.rng ftb in
      Finds (icdf_start r e.rng icdf s) (icdf_width r e.rng icdf s) (by_icdf s icdf ftb) e
unfolding Finds IsSymbol IsReady IsLive decode_symbol value_of Above
icdf-Finds zero icdf ftb e h ready d same from to =
    let below = entry_below 0 icdf ftb e.rng h.1 h.4 h.3 ready.1 h.2 in
    (
      icdf_after zero icdf ftb d,
      ap some (
          decode_icdf_lem zero icdf ftb d h (omega arith) (omega arith)
            (rw same (omega (arith, below))) tt),
      (refl, refl, refl, rw same (omega (arith, below)), rw same (omega (arith, below))),
    )
icdf-Finds (suc s) icdf ftb e h ready d same from to =
    let f = icdf_facts s icdf ftb e.rng h ready.1 in
    (
      icdf_after (suc s) icdf ftb d,
      ap some (
          decode_icdf_lem (suc s) icdf ftb d h (omega arith) (omega arith)
            (rw same (omega (arith, f))) (rw same (omega (arith, f)))),
      (refl, refl, refl, rw same (omega (arith, f)), rw same (omega (arith, f))),
    )

pub by_icdf-Step :
    (buf : Bytes) (s : ℕ) (icdf : List ℕ) (ftb : ℕ) (e : RangeEncoder)
    → IsBytes buf
    → IsReady e
    → IsSymbol (by_icdf s icdf ftb)
    → digits e + 3 < 4294967296
    → Step buf (by_icdf s icdf ftb) e
unfolding encode_symbol
by_icdf-Step buf s icdf ftb e bytes ready h few =
    let r = shr e.rng ftb in
    let a = icdf_start r e.rng icdf s in
    let w = icdf_width r e.rng icdf s in
    found-Step buf a w (by_icdf s icdf ftb) e
      (rw (encode_icdf_lem s icdf ftb e h ready)
        (part-Coded buf a w e bytes ready (icdf-IsPart s icdf ftb e h ready) few))
      (icdf-Finds s icdf ftb e h ready)
