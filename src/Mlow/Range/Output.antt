-- ===== src/Mlow/Range/Output.antt =====
-- The digits that `Done` puts out for the last number.
use meowcaller.Base.{
  ℕ, zero, suc, ◌+◌, ◌-◌, ◌*◌, ◌/◌, ◌%◌, ◌≤◌, ◌<◌, ◌≡◌, refl, ap, ◌∙◌, ◌⊎◌, inl, inr, false, Option,
  none, some, arith, leb, ◌==◌, lt→ltb, leb→le, ==_iff, Bool-cases, u32,
}
use meowcaller.Mlow.Range.Decoder.{ec_code_top, ec_code_bot}
use meowcaller.Mlow.Range.Encoder.{RangeEncoder, carry_out}
use meowcaller.Mlow.Range.Flush.{Ending, write_end}
use meowcaller.Mlow.Range.Carry.{code, digits, Takes, Carried, digits-carry_out}
use meowcaller.Mlow.Range.Interval.{
  Room, IsLive, Kept, carry_out-Room, Room-Takes, carry_out-Carried,
}
use meowcaller.Mlow.Range.Nested.{Kept-trans}
use meowcaller.Mlow.Range.Step.{IsReady}
use meowcaller.Mlow.Range.End.{IsEnding}

-- The last digit is a byte.
abbrev pub IsByteRem : Option ℕ → Type 0
IsByteRem rem = Room 0 rem

carry_out-IsByteRem : (c : ℕ) (e : RangeEncoder) → IsByteRem e.rem → IsByteRem (carry_out c e).rem
unfolding Room
carry_out-IsByteRem c e h =
    carry_out-Room 0 c e (λ t. h) (λ t. (omega arith, λ above. absurd (omega arith)))

pub byte-Takes : (c : ℕ) (rem : Option ℕ) → c < 256 → IsByteRem rem → Takes c rem
unfolding Room Takes
byte-Takes c none small h = small
byte-Takes c (some r) small h = (h.0, omega arith, λ large. absurd (omega arith))

Room-byte : (above : ℕ) (rem : Option ℕ) → Room above rem → IsByteRem rem
unfolding Room
Room-byte above none h = omega arith
Room-byte above (some r) h = (h.0, λ t. absurd (omega arith))

-- What a sequence of digits does: `n` of them are put behind the code.
unfoldable pub Extends : (e e' : RangeEncoder) → (n number : ℕ) → Type 0
Extends e e' n number =
    (e'.err ≡ false) → (e.err ≡ false) × (code e' ≡ number) × (digits e' ≡ digits e + n) × Kept e e'

pub carry_out-Extends :
    (c : ℕ) (e : RangeEncoder)
    → digits e < 4294967295
    → Takes c e.rem
    → Extends e (carry_out c e) 1 (code e * 256 + c)
unfolding Extends Kept Carried
carry_out-Extends c e few takes ok = ground (arith, carry_out-Carried c e few takes ok)

-- How many digits the number at the end takes, and that they are all of it.
unfoldable pub Written : (e : RangeEncoder) (end : ℕ) (e' : RangeEncoder) → Type 0
Written e end e' =
    Extends e e' 0 (code e) × (end ≡ 0)
    ⊎ Extends e e' 1 (code e * 256 + end / ec_code_bot) × (end % ec_code_bot ≡ 0)
    ⊎ Extends e e' 2 ((code e * 256 + end / ec_code_bot) * 256 + end % ec_code_bot / 32768)
      × (end % 32768 ≡ 0)

write_end-stop : (n end : ℕ) (e : RangeEncoder) → write_end n 0 end e ≡ e
unfolding write_end
write_end-stop zero end e = refl
write_end-stop (suc n) end e = refl

write_end-go :
    (n l end : ℕ) (e : RangeEncoder)
    → 0 < l
    → write_end (suc n) l end e
      ≡ write_end n (l - 8) (u32 (end * 256) % ec_code_top) (carry_out (end / ec_code_bot) e)
unfolding write_end
write_end-go n l end e pos = rw (lt→ltb 0 l pos) refl

pub Kept-self : (e : RangeEncoder) → Kept e e
unfolding Kept
Kept-self e = (refl, refl, refl, λ h. h, λ h. h)

Extends-self : (e : RangeEncoder) → Extends e e 0 (code e)
unfolding Extends
Extends-self e ok = (ok, refl, omega arith, Kept-self e)

Extends-two :
    (e f g : RangeEncoder) (a c : ℕ)
    → Extends e f 1 a
    → Extends f g 1 (code f * 256 + c)
    → Extends e g 2 (a * 256 + c)
unfolding Extends
Extends-two e f g a c first second ok =
    let s = second ok in
    let t = first s.0 in (t.0, omega (arith, s, t), omega (arith, s, t), Kept-trans e f g t.3 s.3)

one_byte :
    (e : RangeEncoder) (l end : ℕ)
    → 0 < l
    → l ≤ 8
    → write_end 5 l end e ≡ carry_out (end / ec_code_bot) e
one_byte e l end pos le =
    let done : l - 8 ≡ 0 = omega arith in
    write_end-go 4 l end e pos ∙ rw done (write_end-stop 4 _ _)

two_bytes :
    (e : RangeEncoder) (end : ℕ)
    → write_end 5 9 end e ≡ carry_out (end % ec_code_bot / 32768) (carry_out (end / ec_code_bot) e)
two_bytes e end =
    let next : u32 (end * 256) % ec_code_top / ec_code_bot ≡ end % ec_code_bot / 32768 =
      omega arith in
    write_end-go 4 9 end e (omega arith)
    ∙ one_byte_more (u32 (end * 256) % ec_code_top) (carry_out (end / ec_code_bot) e)
    ∙ ap (λ (c : ℕ). carry_out c (carry_out (end / ec_code_bot) e)) next
  where
    one_byte_more : (x : ℕ) (f : RangeEncoder) → write_end 4 1 x f ≡ carry_out (x / ec_code_bot) f
    one_byte_more x f = write_end-go 3 1 x f (omega arith) ∙ write_end-stop 3 _ _

pub write_end-Written :
    (e : RangeEncoder) (c : Ending)
    → IsReady e
    → IsEnding e.val e.rng c
    → digits e + 3 < 4294967296
    → Written e c.end (write_end 5 c.bits c.end e) × IsByteRem (write_end 5 c.bits c.end e).rem
unfolding Written IsReady IsLive IsEnding
write_end-Written e c ready ending few =
    let byte = Room-byte (e.val + e.rng) e.rem ready.0.3 in
    let c1 = c.end / ec_code_bot in
    let c2 = c.end % ec_code_bot / 32768 in
    let first =
      carry_out-Extends c1 e (omega arith)
        (Room-Takes c.end (e.val + e.rng) e.rem (omega arith) (omega arith) ready.0.3) in
    let byte1 = carry_out-IsByteRem c1 e byte in
    elim (Bool-cases (c.bits == 0)) [
      | inl z ↦
          let none_left : c.bits ≡ 0 = (==_iff c.bits 0).0 z in
          rw (none_left, write_end-stop 5 c.end e) (inl (Extends-self e, ending.3 none_left), byte)
      | inr nz ↦ elim (Bool-cases (leb c.bits 8)) [
        | inl small ↦
            rw (one_byte e c.bits c.end (ground arith) (leb→le _ _ small))
              (inr (inl (first, ending.4 (leb→le _ _ small))), byte1)
        | inr large ↦
            let two = Extends-two e (carry_out c1 e) (carry_out c2 (carry_out c1 e)) _ c2 first (
              carry_out-Extends c2 (carry_out c1 e) (omega (arith, digits-carry_out c1 e))
                (byte-Takes c2 (carry_out c1 e).rem (omega arith) byte1)) in
            let nine : c.bits ≡ 9 = ground arith in
            rw (nine, two_bytes e c.end)
              (inr (inr (two, omega arith)), carry_out-IsByteRem c2 _ byte1)
      ]
    ]
