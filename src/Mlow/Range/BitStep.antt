-- ===== src/Mlow/Range/BitStep.antt =====
-- The step of one bit.
use meowcaller.Base.{
  ℕ, ◌+◌, ◌-◌, ◌^◌, ◌≤◌, ◌<◌, ◌≡◌, refl, ap, Bool, true, false, arith, ltb, if◌then◌else◌, Bytes,
  IsBytes, sub32, shr,
}
use native.Mathlib.Nat.{pow-le-pow_right, mul-le-mul_left, div-mul-le_self, le-div_iff_mul-le}
use meowcaller.Mlow.Range.Decoder.{bit_logp, ec_code_bot}
use meowcaller.Mlow.Range.Encoder
use meowcaller.Mlow.Range.Encoder.{RangeEncoder, encode_bit_logp, encode_icdf}
use meowcaller.Mlow.Range.Carry.{digits}
use meowcaller.Mlow.Range.Interval.{IsLive}
use meowcaller.Mlow.Range.Step.{IsReady, IsPart, take_part, part-Coded}
use meowcaller.Mlow.Range.Symbol.{same_part}
use meowcaller.Mlow.Range.Codec.{one_bit, value_of, encode_symbol, decode_symbol, IsSymbol}
use meowcaller.Mlow.Range.Frequencies.{Step, Finds, found-Step}
use meowcaller.Mlow.Range.Uniform.{pow_fits}

-- The share of the ones.
pub ones_share :
    (logp rng : ℕ)
    → 1 ≤ logp
    → logp ≤ 23
    → ec_code_bot < rng
    → (0 < shr rng logp) × (shr rng logp < rng)
ones_share logp rng from to big =
    let p = pow_fits logp to in
    let two = pow-le-pow_right {n = 2} (omega arith) {i = 1} {j = logp} from in
    let some_unit =
      (le-div_iff_mul-le {k = 2 ^ logp} {x = 1} {y = rng} (omega arith)).1 (omega (arith, p)) in
    let less = mul-le-mul_left (shr rng logp) two in
    (some_unit, omega (arith, less, some_unit, div-mul-le_self rng (2 ^ logp)))

abbrev bit_start : (b : Bool) → (logp rng : ℕ) → ℕ
bit_start b logp rng = if b then rng - shr rng logp else 0

abbrev bit_width : (b : Bool) → (logp rng : ℕ) → ℕ
bit_width b logp rng = if b then shr rng logp else rng - shr rng logp

pub encode_bit_lem :
    (b : Bool) (logp : ℕ) (e : RangeEncoder)
    → IsSymbol (one_bit b logp)
    → IsReady e
    → encode_bit_logp b logp e
      ≡ Encoder.normalize (take_part (bit_start b logp e.rng) (bit_width b logp e.rng) e)
unfolding encode_bit_logp IsSymbol IsReady IsLive
encode_bit_lem true logp e h ready =
    let share = ones_share logp e.rng h.0 h.1 ready.1 in
    ap Encoder.normalize (same_part e (omega (arith, share)) refl)
encode_bit_lem false logp e h ready =
    let share = ones_share logp e.rng h.0 h.1 ready.1 in
    ap Encoder.normalize (same_part e (omega arith) (omega (arith, share)))

bit-Finds :
    (b : Bool) (logp : ℕ) (e : RangeEncoder)
    → IsSymbol (one_bit b logp)
    → IsReady e
    → Finds (bit_start b logp e.rng) (bit_width b logp e.rng) (one_bit b logp) e
unfolding Finds IsSymbol IsReady IsLive decode_symbol value_of bit_logp
bit-Finds true logp e h ready d same from to =
    let share = ones_share logp e.rng h.0 h.1 ready.1 in
    let one : ltb d.val (shr d.rng logp) ≡ true = rw same (ground (arith, share)) in
    (record d { rng = shr d.rng logp }, rw one refl, (refl, refl, refl, rw same refl, omega arith))
bit-Finds false logp e h ready d same from to =
    let share = ones_share logp e.rng h.0 h.1 ready.1 in
    let none_of : ltb d.val (shr d.rng logp) ≡ false = rw same (ground (arith, share)) in
    (
      record d { val = sub32 d.val (shr d.rng logp); rng = sub32 d.rng (shr d.rng logp) },
      rw none_of refl,
      (refl, refl, refl, rw same (omega (arith, share)), rw same (omega (arith, share))),
    )

bit-IsPart :
    (b : Bool) (logp : ℕ) (e : RangeEncoder)
    → IsSymbol (one_bit b logp)
    → IsReady e
    → IsPart (bit_start b logp e.rng) (bit_width b logp e.rng) e
unfolding IsSymbol IsReady
bit-IsPart true logp e h ready = omega (arith, ones_share logp e.rng h.0 h.1 ready.1)
bit-IsPart false logp e h ready = omega (arith, ones_share logp e.rng h.0 h.1 ready.1)

pub one_bit-Step :
    (buf : Bytes) (b : Bool) (logp : ℕ) (e : RangeEncoder)
    → IsBytes buf
    → IsReady e
    → IsSymbol (one_bit b logp)
    → digits e + 3 < 4294967296
    → Step buf (one_bit b logp) e
unfolding encode_symbol IsReady
one_bit-Step buf b logp e bytes ready h few =
    let a = bit_start b logp e.rng in
    let w = bit_width b logp e.rng in
    found-Step buf a w (one_bit b logp) e
      (rw (encode_bit_lem b logp e h ready)
        (part-Coded buf a w e bytes ready (bit-IsPart b logp e h ready) few))
      (bit-Finds b logp e h ready)
