-- ===== src/Mlow/Range/Interval.antt =====
-- The interval that an encoder stands for: `low` is the whole number that is out, with `e.val` as
-- its last 31 bits, and the code of a stream is in the interval, or it is not.
use meowcaller.Base.{
  ℕ, ◌+◌, ◌*◌, ◌/◌, ◌%◌, ◌≤◌, ◌<◌, ◌≡◌, inl, inr, true, false, Option, none, some, arith, ◌==◌,
  Bool-cases, length, Bytes, IsBytes, u32,
}
use meowcaller.Mlow.Range.Decoder.{ec_code_top, ec_code_bot}
use meowcaller.Mlow.Range.Encoder.{RangeEncoder, carry_out, shift_out}
use meowcaller.Mlow.Range.Digits.{prefix}
use meowcaller.Mlow.Range.Carry.{code, digits, Takes, Carried, carry_out-waits, carry_out-writes}

unfoldable pub low : RangeEncoder → ℕ
low e = code e * ec_code_top + e.val

-- The interval ends where the last digit can still take a carry, and below 2 ^ 32.
unfoldable pub Room : ℕ → Option ℕ → Type 0
Room above none = above ≤ ec_code_top
Room above (some r) = (r < 256) × (ec_code_top < above → r < 255)

-- A live encoder the loop of `normalize`.
unfoldable pub IsLive : RangeEncoder → Type 0
IsLive e =
    (0 < e.rng) × (e.rng ≤ ec_code_top) × (e.val + e.rng ≤ 4294967296) × Room (e.val + e.rng) e.rem

-- What no method but `Done` and `BitsN` changes.
unfoldable pub Kept : RangeEncoder → RangeEncoder → Type 0
Kept e e' =
    (length e'.buf ≡ length e.buf)
    × (e'.end_offs ≡ e.end_offs)
    × (e'.nend_bits ≡ e.nend_bits)
    × (e.offs + e.end_offs ≤ length e.buf → e'.offs + e'.end_offs ≤ length e'.buf)
    × (IsBytes e.buf → IsBytes e'.buf)

-- The bits of a stream that a decoder has seen where the encoder is at `e`, and that they are in
-- the interval.
unfoldable pub seen : Bytes → RangeEncoder → ℕ
seen buf e = prefix buf (digits e + 4) / 2

unfoldable pub Holds : Bytes → RangeEncoder → Type 0
Holds buf e = (low e ≤ seen buf e) × (seen buf e < low e + e.rng)

pub Room-Takes :
    (val above : ℕ) (rem : Option ℕ)
    → val < above
    → above ≤ 4294967296
    → Room above rem
    → Takes (val / ec_code_bot) rem
unfolding Room Takes
Room-Takes val above none lt le h = omega arith
Room-Takes val above (some r) lt le h = grind arith

pub carry_out-Carried :
    (c : ℕ) (e : RangeEncoder) → digits e < 4294967295 → Takes c e.rem → Carried e (carry_out c e) c
carry_out-Carried c e few takes = elim (Bool-cases (c == 255)) [
  | inl h ↦ carry_out-waits c e few h
  | inr h ↦ carry_out-writes c e takes h
]

abbrev shifted_end : (val rng : ℕ) → ℕ
shifted_end val rng = u32 (val * 256) % ec_code_top + u32 (rng * 256)

Room-waits :
    (val rng : ℕ) (rem : Option ℕ)
    → rng ≤ ec_code_bot
    → (val / ec_code_bot == 255) ≡ true
    → Room (val + rng) rem
    → Room (shifted_end val rng) rem
unfolding Room
Room-waits val rng none small h room = ground arith
Room-waits val rng (some r) small h room = (room.0, λ above. room.1 (ground arith))

Room-writes :
    (val rng : ℕ)
    → rng ≤ ec_code_bot
    → val + rng ≤ 4294967296
    → (val / ec_code_bot == 255) ≡ false
    → Room (shifted_end val rng) (some (val / ec_code_bot % 256))
unfolding Room
Room-writes val rng small fits h = (omega arith, λ above. ground arith)

pub carry_out-Room :
    (above c : ℕ) (e : RangeEncoder)
    → ((c == 255) ≡ true → Room above e.rem)
    → ((c == 255) ≡ false → Room above (some (c % 256)))
    → Room above (carry_out c e).rem
unfolding carry_out
carry_out-Room above c e waits writes = elim (Bool-cases (c == 255)) [
  | inl h ↦ rw h (waits h)
  | inr h ↦ rw h (writes h)
]

-- The room after a shift.
shift_out-Room :
    (e : RangeEncoder)
    → IsLive e
    → e.rng ≤ ec_code_bot
    → Room ((shift_out e).val + (shift_out e).rng) (shift_out e).rem
unfolding IsLive shift_out
shift_out-Room e live small =
    carry_out-Room (shifted_end e.val e.rng) (e.val / ec_code_bot) e
      (λ h. Room-waits e.val e.rng e.rem small h live.3)
      (λ h. Room-writes e.val e.rng small live.2 h)

pub shift_out-IsLive : (e : RangeEncoder) → IsLive e → e.rng ≤ ec_code_bot → IsLive (shift_out e)
unfolding IsLive shift_out
shift_out-IsLive e live small = (omega arith, omega arith, omega arith, shift_out-Room e live small)

-- What a shift does, if it leaves no error.
unfoldable pub Shifted : RangeEncoder → RangeEncoder → Type 0
Shifted e e' =
    (e'.err ≡ false)
    → (e.err ≡ false)
      × (low e' ≡ low e * 256)
      × (e'.rng ≡ e.rng * 256)
      × (digits e' ≡ digits e + 1)
      × Kept e e'

pub shift_out-Shifted :
    (e : RangeEncoder)
    → IsLive e
    → e.rng ≤ ec_code_bot
    → digits e < 4294967295
    → Shifted e (shift_out e)
unfolding Shifted Carried low IsLive shift_out code digits Kept
shift_out-Shifted e live small few ok = ground (
  arith,
  carry_out-Carried (e.val / ec_code_bot) e few
      (Room-Takes e.val (e.val + e.rng) e.rem (omega arith) (omega arith) live.3),
)
