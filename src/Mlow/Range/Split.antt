-- ===== src/Mlow/Range/Split.antt =====
-- The part of a range that `Encode` and `Update` give to the symbol of the frequencies `fl` to
-- `fh` out of `ft`.
use meowcaller.Base.{
  ℕ, ◌+◌, ◌-◌, ◌*◌, ◌/◌, ◌≤◌, ◌<◌, ◌≡◌, ap, ◌∙◌, arith, ltb, if◌then◌else◌, u32, sub32,
}
use native.Mathlib.Nat.{
  div-lt_iff_lt-mul, mul_comm, mul-pos, mul-le-mul_left, div-mul-le_self, le-div_iff_mul-le,
  mul-add,
}
use meowcaller.Mlow.Range.Decoder.{ec_code_bot}

-- The frequencies of a symbol, out of a total that each range has a unit for.
abbrev pub IsInterval : (fl fh ft : ℕ) → Type 0
IsInterval fl fh ft = (fl < fh) × (fh ≤ ft) × (ft ≤ ec_code_bot)

abbrev pub part_start : (fl fh ft rng : ℕ) → ℕ
part_start fl fh ft rng = if ltb 0 fl then rng - rng / ft * (ft - fl) else 0

abbrev pub part_width : (fl fh ft rng : ℕ) → ℕ
part_width fl fh ft rng = if ltb 0 fl then rng / ft * (fh - fl) else rng - rng / ft * (ft - fh)

pub u32-lt : (x : ℕ) → x < 4294967296 → u32 x ≡ x
u32-lt x h = omega arith

pub sub32-le : (a b : ℕ) → b ≤ a → a < 4294967296 → sub32 a b ≡ a - b
sub32-le a b le h = omega arith

-- The unit, and the products with it.
pub unit_facts :
    (fl fh ft rng : ℕ)
    → IsInterval fl fh ft
    → ec_code_bot < rng
    → (0 < rng / ft)
      × (rng / ft * (ft - fl) ≡ rng / ft * (ft - fh) + rng / ft * (fh - fl))
      × (0 < rng / ft * (fh - fl))
      × (rng / ft * (ft - fl) ≤ rng)
unit_facts fl fh ft rng h big =
    let r = rng / ft in
    let some_unit : 0 < r =
      (le-div_iff_mul-le {k = ft} {x = 1} {y = rng} (omega arith)).1 (omega arith) in
    let e : ft - fl ≡ ft - fh + (fh - fl) = omega arith in
    (
      some_unit,
      ap (λ (t : ℕ). r * t) e ∙ mul-add r (ft - fh) (fh - fl),
      mul-pos some_unit (omega arith),
      omega (arith, mul-le-mul_left {m = ft - fl} {n = ft} r (omega arith), div-mul-le_self rng ft),
    )

pub part-IsPart :
    (fl fh ft rng : ℕ)
    → IsInterval fl fh ft
    → ec_code_bot < rng
    → (0 < part_width fl fh ft rng) × (part_start fl fh ft rng + part_width fl fh ft rng ≤ rng)
part-IsPart fl fh ft rng h big = ground (arith, unit_facts fl fh ft rng h big)

-- The lower and the upper end of the part, counted from the end of the range.
pub part_ends :
    (fl fh ft rng : ℕ)
    → IsInterval fl fh ft
    → ec_code_bot < rng
    → (rng - part_start fl fh ft rng - part_width fl fh ft rng ≡ rng / ft * (ft - fh))
      × (0 < fl → rng - part_start fl fh ft rng ≡ rng / ft * (ft - fl))
part_ends fl fh ft rng h big = ground (arith, unit_facts fl fh ft rng h big)

-- The unit that a value is in belongs to the symbol.
pub unit-in :
    (fl fh ft rng val : ℕ)
    → IsInterval fl fh ft
    → ec_code_bot < rng
    → rng - part_start fl fh ft rng - part_width fl fh ft rng ≤ val
    → val < rng - part_start fl fh ft rng
    → (ft ≤ val / (rng / ft) + fh) × (0 < fl → val / (rng / ft) + fl < ft)
unit-in fl fh ft rng val h big above below =
    let r = rng / ft in
    let unit = (unit_facts fl fh ft rng h big).0 in
    let ends = part_ends fl fh ft rng h big in
    let from : ft - fh ≤ val / r =
      (le-div_iff_mul-le {k = r} {x = ft - fh} {y = val} unit).1
        (omega (arith, ends, mul_comm (ft - fh) r)) in
    let to : 0 < fl → val / r < ft - fl = λ pos.
      (div-lt_iff_lt-mul {k = r} {x = val} {y = ft - fl} unit).1
        (omega (arith, ends.1 pos, mul_comm (ft - fl) r)) in
    (omega arith, λ pos. omega (arith, to pos))
