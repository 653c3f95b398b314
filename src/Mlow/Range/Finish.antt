-- ===== src/Mlow/Range/Finish.antt =====
-- `Done` puts a number of the interval out, so that the finished buffer is a stream in it.
use meowcaller.Base.{
  ℕ, zero, suc, ◌+◌, ◌-◌, ◌*◌, ◌/◌, ◌%◌, ◌≤◌, ◌<◌, ◌≡◌, refl, sym, ap, ◌∙◌, inl, inr, false, ◌||◌,
  Option, none, some, arith, ltb, leb, Bool-cases, length, IsBytes, u32,
}
use meowcaller.Mlow.Range.Decoder.{ec_code_top, ec_code_bot}
use meowcaller.Mlow.Range.Encoder.{RangeEncoder, write_byte_at_end, carry_out}
use meowcaller.Mlow.Range.Flush.{
  choose_end, write_end, write_raw, zero_fill, fill_gap, has_rem, flush_rem, done,
}
use meowcaller.Mlow.Range.Digits.{
  prefix, put_digits, prefix-zero_fill, prefix_zeros, get-zero_fill, zero_fill-IsBytes,
}
use meowcaller.Mlow.Range.Carry.{code, digits, with_rem, count_rem, digits-carry_out, carry_out-ok}
use meowcaller.Mlow.Range.Interval.{low, Kept, seen, Holds}
use meowcaller.Mlow.Range.Nested.{Kept-trans}
use meowcaller.Mlow.Range.Step.{IsReady}
use meowcaller.Mlow.Range.End.{IsEnding, choose_end-IsEnding}
use meowcaller.Mlow.Range.Output.{
  IsByteRem, byte-Takes, Extends, carry_out-Extends, Written, Kept-self, write_end-Written,
}

-- The digits that wait are put out by one digit more, and the buffer holds them all.
unfoldable pub Flushed : RangeEncoder → RangeEncoder → Type 0
Flushed e e' =
    (e'.err ≡ false)
    → (e.err ≡ false) × (prefix e'.buf e'.offs ≡ code e) × (e'.offs ≡ digits e) × Kept e e'

zero_out :
    (e : RangeEncoder)
    → (code (carry_out 0 e) ≡ prefix (carry_out 0 e).buf (carry_out 0 e).offs * 256 + 0)
      × (digits (carry_out 0 e) ≡ (carry_out 0 e).offs + 1 + 0)
unfolding carry_out code digits put_digits with_rem count_rem
zero_out e = (refl, refl)

nothing_out :
    (e : RangeEncoder) (rem : Option ℕ)
    → e.rem ≡ rem
    → (has_rem rem || ltb 0 e.ext) ≡ false
    → (code e ≡ prefix e.buf e.offs) × (digits e ≡ e.offs)
unfolding code digits with_rem count_rem put_digits
nothing_out e none h t = let no_ext : e.ext ≡ 0 = ground arith in rw (h, no_ext) (refl, omega arith)
nothing_out e (some r) h t = absurd (ground arith)

flush_rem-Flushed :
    (e : RangeEncoder) → IsByteRem e.rem → digits e < 4294967295 → Flushed e (flush_rem e)
unfolding Flushed Extends
flush_rem-Flushed e byte few = elim (Bool-cases (has_rem e.rem || ltb 0 e.ext)) [
  | inl t ↦ rw t (λ ok.
      let z = zero_out e in
      let w = carry_out-Extends 0 e few (byte-Takes 0 e.rem (omega arith) byte) ok in
      (w.0, omega (arith, z, w), omega (arith, z, w), w.3))
  | inr t ↦ let n = nothing_out e e.rem refl t in rw t (λ ok. (ok, sym n.0, sym n.1, Kept-self e))
]

-- Behind them all bytes of the finished buffer are zeros.
fill_gap-buf :
    (e : RangeEncoder)
    → e.err ≡ false
    → e.nend_bits ≡ 0
    → e.end_offs ≡ 0
    → (fill_gap e).buf ≡ zero_fill (length e.buf - 0 - e.offs) e.offs e.buf
unfolding fill_gap
fill_gap-buf e ok bits ends = rw (ok, bits, ends) refl

fill_gap-prefix :
    (e : RangeEncoder) (n : ℕ)
    → e.err ≡ false
    → e.nend_bits ≡ 0
    → e.end_offs ≡ 0
    → prefix (fill_gap e).buf (e.offs + n) ≡ put_digits 0 n (prefix e.buf e.offs)
fill_gap-prefix e n ok bits ends =
    let gap = length e.buf - 0 - e.offs in
    rw (fill_gap-buf e ok bits ends) (
      prefix_zeros (zero_fill gap e.offs e.buf) e.offs n
        (λ j le. get-zero_fill gap e.offs j e.buf (omega arith) le)
      ∙ ap (put_digits 0 n) (prefix-zero_fill gap e.offs e.offs e.buf (omega arith)))

-- Errors stay.
fill_gap-ok : (e : RangeEncoder) → (fill_gap e).err ≡ false → e.err ≡ false
unfolding fill_gap
fill_gap-ok e ok = ground arith

write_raw-ok : (n : ℕ) (e : RangeEncoder) → (write_raw n e).err ≡ false → e.err ≡ false
unfolding write_raw write_byte_at_end
write_raw-ok zero e ok = ok
write_raw-ok (suc n) e ok = elim (Bool-cases (leb 8 e.nend_bits)) [
  | inl more ↦ ground (arith, write_raw-ok n _ (rw more at ok))
  | inr stop ↦ rw stop at ok
]

pub no_raw : (e : RangeEncoder) → e.nend_bits ≡ 0 → write_raw 4 e ≡ e
unfolding write_raw
no_raw e h = rw h refl

-- The stream behind the digits that are out.
gap_prefix :
    (e e2 e3 : RangeEncoder) (m k number : ℕ)
    → m + k ≡ 4
    → Extends e e2 m number
    → Flushed e2 e3
    → e3.err ≡ false
    → e.nend_bits ≡ 0
    → e.end_offs ≡ 0
    → (e.err ≡ false) × (prefix (fill_gap e3).buf (digits e + 4) ≡ put_digits 0 k number)
unfolding Extends Flushed Kept
gap_prefix e e2 e3 m k number four extends flushed ok bits ends =
    let f = flushed ok in
    let x = extends f.0 in
    let place : digits e + 4 ≡ e3.offs + k = omega (arith, f, x) in
    (
      x.0,
      ap (prefix (fill_gap e3).buf) place
          ∙ fill_gap-prefix e3 k ok (omega (arith, f, x)) (omega (arith, f, x))
          ∙ ap (put_digits 0 k) (f.1 ∙ x.1),
    )

end-Holds :
    (e e2 e3 : RangeEncoder) (end : ℕ)
    → Written e end e2
    → e.val ≤ end
    → end < e.val + e.rng
    → Flushed e2 e3
    → e3.err ≡ false
    → e.nend_bits ≡ 0
    → e.end_offs ≡ 0
    → (e.err ≡ false) × Holds (fill_gap e3).buf e
unfolding Written Holds seen low put_digits
end-Holds e e2 e3 end (inl (extends, z)) from to flushed ok bits ends =
    let p = gap_prefix e e2 e3 0 4 _ (omega arith) extends flushed ok bits ends in
    (p.0, (omega (arith, p), omega (arith, p)))
end-Holds e e2 e3 end (inr (inl (extends, z))) from to flushed ok bits ends =
    let p = gap_prefix e e2 e3 1 3 _ (omega arith) extends flushed ok bits ends in
    (p.0, (omega (arith, p), omega (arith, p)))
end-Holds e e2 e3 end (inr (inr (extends, z))) from to flushed ok bits ends =
    let p = gap_prefix e e2 e3 2 2 _ (omega arith) extends flushed ok bits ends in
    (p.0, (omega (arith, p), omega (arith, p)))

digits-write_end : (n l end : ℕ) (e : RangeEncoder) → digits (write_end n l end e) ≤ digits e + n
unfolding write_end
digits-write_end zero l end e = omega arith
digits-write_end (suc n) l end e = elim (Bool-cases (ltb 0 l)) [
  | inl more ↦
      let c = end / ec_code_bot in
      rw more (
        omega (
          arith,
          digits-write_end n (l - 8) (u32 (end * 256) % ec_code_top) (carry_out c e),
          digits-carry_out c e,
        ))
  | inr stop ↦ rw stop (omega arith)
]

Written-Kept :
    (e e2 e3 : RangeEncoder) (end : ℕ)
    → Written e end e2
    → Flushed e2 e3
    → e3.err ≡ false
    → Kept e e3
unfolding Written Extends Flushed
Written-Kept e e2 e3 end (inl (extends, z)) flushed ok =
    let f = flushed ok in Kept-trans e e2 e3 (extends f.0).3 f.3
Written-Kept e e2 e3 end (inr (inl (extends, z))) flushed ok =
    let f = flushed ok in Kept-trans e e2 e3 (extends f.0).3 f.3
Written-Kept e e2 e3 end (inr (inr (extends, z))) flushed ok =
    let f = flushed ok in Kept-trans e e2 e3 (extends f.0).3 f.3

write_end-ok : (n l end : ℕ) (e : RangeEncoder) → (write_end n l end e).err ≡ false → e.err ≡ false
unfolding write_end
write_end-ok zero l end e ok = ok
write_end-ok (suc n) l end e ok = elim (Bool-cases (ltb 0 l)) [
  | inl more ↦
      let c = end / ec_code_bot in
      carry_out-ok c e
        (write_end-ok n (l - 8) (u32 (end * 256) % ec_code_top) (carry_out c e) (rw more at ok))
  | inr stop ↦ rw stop at ok
]

flush_rem-ok : (e : RangeEncoder) → (flush_rem e).err ≡ false → e.err ≡ false
flush_rem-ok e ok = elim (Bool-cases (has_rem e.rem || ltb 0 e.ext)) [
  | inl t ↦ carry_out-ok 0 e (rw t at ok)
  | inr t ↦ rw t at ok
]

-- An encoder that ends without an error had none before.
pub done-ok : (e : RangeEncoder) → (done e).err ≡ false → e.err ≡ false
unfolding done
done-ok e ok =
    let c = choose_end e in
    let e2 = write_end 5 c.bits c.end e in
    write_end-ok 5 c.bits c.end e (
      flush_rem-ok e2 (write_raw-ok 4 (flush_rem e2) (fill_gap-ok (write_raw 4 (flush_rem e2)) ok)))

fill_gap-IsBytes :
    (e : RangeEncoder)
    → e.err ≡ false
    → e.nend_bits ≡ 0
    → e.end_offs ≡ 0
    → IsBytes e.buf
    → IsBytes (fill_gap e).buf
fill_gap-IsBytes e ok bits ends h =
    rw (fill_gap-buf e ok bits ends) (zero_fill-IsBytes (length e.buf - 0 - e.offs) e.offs e.buf h)

-- The parts of `Done` on an encoder without raw bits.
pub done-Holds :
    (e : RangeEncoder)
    → IsReady e
    → digits e + 6 < 4294967296
    → e.nend_bits ≡ 0
    → e.end_offs ≡ 0
    → (done e).err ≡ false
    → Holds (done e).buf e × (IsBytes e.buf → IsBytes (done e).buf)
unfolding done IsEnding Kept
done-Holds e ready few bits ends ok =
    let c = choose_end e in
    let ending = choose_end-IsEnding e ready in
    let e2 = write_end 5 c.bits c.end e in
    let e3 = flush_rem e2 in
    let w = write_end-Written e c ready ending (omega arith) in
    let ok3 = write_raw-ok 4 e3 (fill_gap-ok (write_raw 4 e3) ok) in
    let flushed = flush_rem-Flushed e2 w.1 (omega (arith, digits-write_end 5 c.bits c.end e)) in
    let kept = Written-Kept e e2 e3 c.end w.0 flushed ok3 in
    let holds = end-Holds e e2 e3 c.end w.0 ending.1 ending.2 flushed ok3 bits ends in
    rw (no_raw e3 (kept.2 ∙ bits))
      (holds.1, λ bytes. fill_gap-IsBytes e3 ok3 (kept.2 ∙ bits) (kept.1 ∙ ends) (kept.4 bytes))
