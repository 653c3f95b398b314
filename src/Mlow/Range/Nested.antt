-- ===== src/Mlow/Range/Nested.antt =====
-- The intervals of an encoder are nested: a stream that is in a later one is in the earlier one.
use meowcaller.Base.{
  ℕ, zero, suc, ◌+◌, ◌*◌, ◌/◌, ◌≤◌, ◌<◌, ◌≡◌, refl, ◌∙◌, inl, inr, false, arith, leb, leb→le,
  Bool-cases, Bytes, IsBytes, byte_at-IsU8,
}
use meowcaller.Mlow.Range.Decoder.{ec_code_bot}
use meowcaller.Mlow.Range.Encoder.{RangeEncoder, shift_out, normalize_on}
use meowcaller.Mlow.Range.Digits.{prefix_step}
use meowcaller.Mlow.Range.Carry.{digits, digits-carry_out}
use meowcaller.Mlow.Range.Interval.{
  low, IsLive, Kept, seen, Holds, Shifted, shift_out-IsLive, shift_out-Shifted,
}

-- A range after `n` shifts.
unfoldable pub grown : (n rng : ℕ) → ℕ
grown zero rng = rng
grown (suc n) rng = grown n (rng * 256)

-- What the loop of `normalize` does in `n` rounds, if it leaves no error.
unfoldable pub Normalized : Bytes → (n : ℕ) → RangeEncoder → RangeEncoder → Type 0
Normalized buf n e e' =
    (e'.err ≡ false)
    → (e.err ≡ false)
      × IsLive e'
      × (digits e' ≤ digits e + n)
      × Kept e e'
      × (ec_code_bot < grown n e.rng → ec_code_bot < e'.rng)
      × (Holds buf e' → Holds buf e)

Holds-shift_out :
    (buf : Bytes) (e e' : RangeEncoder)
    → IsBytes buf
    → low e' ≡ low e * 256
    → e'.rng ≡ e.rng * 256
    → digits e' ≡ digits e + 1
    → Holds buf e'
    → Holds buf e
unfolding Holds seen
Holds-shift_out buf e e' bytes l r d h = omega (
  arith,
  prefix_step buf (digits e' + 4) (digits e + 4) (omega arith),
  byte_at-IsU8 (digits e + 4) buf bytes,
)

pub Kept-trans : (e f g : RangeEncoder) → Kept e f → Kept f g → Kept e g
unfolding Kept
Kept-trans e f g h k =
    (k.0 ∙ h.0, k.1 ∙ h.1, k.2 ∙ h.2, λ fits. k.3 (h.3 fits), λ bytes. k.4 (h.4 bytes))

Normalized-stay :
    (buf : Bytes) (n : ℕ) (e : RangeEncoder)
    → IsLive e
    → (ec_code_bot < grown n e.rng → ec_code_bot < e.rng)
    → Normalized buf n e e
unfolding Normalized Kept
Normalized-stay buf n e live end ok =
    (ok, live, omega arith, (refl, refl, refl, λ h. h, λ h. h), end, λ h. h)

Normalized-step :
    (buf : Bytes) (n : ℕ) (e f g : RangeEncoder)
    → IsBytes buf
    → Shifted e f
    → Normalized buf n f g
    → Normalized buf (suc n) e g
unfolding Normalized Shifted grown
Normalized-step buf n e f g bytes shifted more ok =
    let later = more ok in
    let s = shifted later.0 in
    (
      s.0,
      later.1,
      omega (arith, later, s),
      Kept-trans e f g s.4 later.3,
      λ h. later.4 (rw s.2 h),
      λ h. Holds-shift_out buf e f bytes s.1 s.2 s.3 (later.5 h),
    )

pub digits-shift_out : (e : RangeEncoder) → digits (shift_out e) ≤ digits e + 1
unfolding shift_out digits
digits-shift_out e = digits-carry_out (e.val / ec_code_bot) e

pub normalize_on-Normalized :
    (buf : Bytes) (n : ℕ) (e : RangeEncoder)
    → IsBytes buf
    → IsLive e
    → digits e + n < 4294967296
    → Normalized buf n e (normalize_on n e)
unfolding normalize_on grown
normalize_on-Normalized buf zero e bytes live few = Normalized-stay buf zero e live (λ h. h)
normalize_on-Normalized buf (suc n) e bytes live few = elim (Bool-cases (leb e.rng ec_code_bot)) [
  | inl small ↦ rw small (
      Normalized-step buf n e (shift_out e) (normalize_on n (shift_out e)) bytes
        (shift_out-Shifted e live (leb→le _ _ small) (omega arith))
        (normalize_on-Normalized buf n (shift_out e) bytes
          (shift_out-IsLive e live (leb→le _ _ small)) (omega (arith, digits-shift_out e))))
  | inr large ↦ rw large (Normalized-stay buf (suc n) e live (λ h. ground arith))
]
