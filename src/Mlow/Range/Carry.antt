-- ===== src/Mlow/Range/Carry.antt =====
-- `carryOut` appends a digit to the number that the encoder has put out, carry and all.
use meowcaller.Base.{
  ℕ, zero, suc, ◌+◌, ◌*◌, ◌/◌, ◌%◌, ◌≤◌, ◌<◌, ◌≡◌, refl, sym, ap, ◌∙◌, inl, inr, true, false,
  Option, none, some, arith, ltb, ◌==◌, Bool-cases, length, IsBytes, u8,
}
use meowcaller.Mlow.Range.Encoder.{
  RangeEncoder, set_at, write_byte, write_waiting, write_rem, carry_out,
}
use meowcaller.Mlow.Range.Digits.{
  prefix, put_digits, put_digits_carry, put_digits_last, prefix-suc, length-set_at, get-set_at_same,
  prefix-set_at, set_at-IsBytes,
}

-- The digits that are out: those in the buffer, the one that may still change, and those that wait
-- for a carry.
unfoldable pub with_rem : Option ℕ → ℕ → ℕ
with_rem none a = a
with_rem (some r) a = a * 256 + r

unfoldable pub count_rem : Option ℕ → ℕ
count_rem none = 0
count_rem (some r) = 1

unfoldable pub code : RangeEncoder → ℕ
code e = put_digits 255 e.ext (with_rem e.rem (prefix e.buf e.offs))

unfoldable pub digits : RangeEncoder → ℕ
digits e = e.offs + count_rem e.rem + e.ext

-- That a digit has room: the last one is a byte, and where the new one carries, it can grow.
unfoldable pub Takes : ℕ → Option ℕ → Type 0
Takes c none = c < 256
Takes c (some r) = (r < 256) × (c < 512) × (256 ≤ c → r < 255)

-- What writing bytes keeps, and that errors stay.
unfoldable pub Wrote : (e e' : RangeEncoder) → (count number : ℕ) → Type 0
Wrote e e' count number =
    (e'.err ≡ false)
    → (e.err ≡ false)
      × (prefix e'.buf e'.offs ≡ number)
      × (e'.offs ≡ e.offs + count)
      × (length e'.buf ≡ length e.buf)
      × (e'.end_offs ≡ e.end_offs)
      × (e'.nend_bits ≡ e.nend_bits)
      × (e.offs + e.end_offs ≤ length e.buf → e'.offs + e'.end_offs ≤ length e'.buf)
      × (IsBytes e.buf → IsBytes e'.buf)

pub write_byte-Wrote :
    (b : ℕ) (e : RangeEncoder)
    → b < 256
    → Wrote e (write_byte b e) 1 (prefix e.buf e.offs * 256 + b)
unfolding write_byte Wrote prefix
write_byte-Wrote b e h ok = elim (Bool-cases (ltb (e.offs + e.end_offs) (length e.buf))) [
  | inl lt ↦ ground (
    arith,
    prefix-suc (set_at e.offs (u8 b) e.buf) e.offs,
    prefix-set_at e.offs (u8 b) e.offs e.buf (omega arith),
    get-set_at_same e.offs (u8 b) e.buf (ground arith),
    length-set_at e.offs (u8 b) e.buf,
    set_at-IsBytes e.offs (u8 b) e.buf (omega arith),
  )
  | inr ge ↦ ground arith
]

pub write_waiting-Wrote :
    (n sym : ℕ) (e : RangeEncoder)
    → sym < 256
    → Wrote e (write_waiting n sym e) n (put_digits sym n (prefix e.buf e.offs))
unfolding write_waiting Wrote put_digits
write_waiting-Wrote zero sym e h ok =
    (ok, refl, omega arith, refl, refl, refl, λ fits. fits, λ h. h)
write_waiting-Wrote (suc n) sym e h ok =
    ground (arith, write_waiting-Wrote n sym (write_byte sym e) h ok, write_byte-Wrote sym e h)

write_rem-Wrote :
    (c : ℕ) (rem : Option ℕ) (e : RangeEncoder)
    → Takes c rem
    → Wrote e
        (write_rem (c / 256) rem e)
        (count_rem rem)
        (with_rem rem (prefix e.buf e.offs) + c / 256)
unfolding Takes Wrote count_rem with_rem
write_rem-Wrote c none e h ok =
    (ok, omega arith, omega arith, refl, refl, refl, λ fits. fits, λ h. h)
write_rem-Wrote c (some r) e h ok = ground (arith, write_byte-Wrote (r + c / 256) e (grind arith))

put_digits_with_carry :
    (k n a : ℕ) → k < 2 → put_digits ((255 + k) % 256) n (a + k) ≡ put_digits 255 n a + k
put_digits_with_carry zero n a h =
    let e : a + 0 ≡ a = omega arith in ap (put_digits 255 n) e ∙ omega arith
put_digits_with_carry (suc zero) n a h = sym (put_digits_carry n a)
put_digits_with_carry (suc (suc k)) n a h = absurd (omega arith)

Takes-lt : (c : ℕ) (rem : Option ℕ) → Takes c rem → c < 512
unfolding Takes
Takes-lt c none h = omega arith
Takes-lt c (some r) h = omega arith

-- What `carryOut` does, if it leaves no error: there was none before, the digit is behind the
-- number, and only the digit 255 leaves the last digit as it was.
unfoldable pub Carried : (e e' : RangeEncoder) → ℕ → Type 0
Carried e e' c =
    (e'.err ≡ false)
    → (e.err ≡ false)
      × (code e' ≡ code e * 256 + c)
      × (digits e' ≡ digits e + 1)
      × (length e'.buf ≡ length e.buf)
      × (e'.end_offs ≡ e.end_offs)
      × (e'.nend_bits ≡ e.nend_bits)
      × (e.offs + e.end_offs ≤ length e.buf → e'.offs + e'.end_offs ≤ length e'.buf)
      × (IsBytes e.buf → IsBytes e'.buf)

pub carry_out-waits :
    (c : ℕ) (e : RangeEncoder)
    → digits e < 4294967295
    → (c == 255) ≡ true
    → Carried e (carry_out c e) c
unfolding carry_out Carried code digits
carry_out-waits c e few h ok =
    ground (arith, put_digits_last 255 e.ext (with_rem e.rem (prefix e.buf e.offs)))

pub carry_out-writes :
    (c : ℕ) (e : RangeEncoder) → Takes c e.rem → (c == 255) ≡ false → Carried e (carry_out c e) c
unfolding carry_out Carried code digits put_digits with_rem count_rem Wrote
carry_out-writes c e takes h ok =
    let k = c / 256 in
    let front = write_rem k e.rem e in
    ground (
      arith,
      write_waiting-Wrote e.ext ((255 + k) % 256) front (omega arith),
      write_rem-Wrote c e.rem e takes,
      put_digits_with_carry k e.ext (with_rem e.rem (prefix e.buf e.offs)),
      Takes-lt c e.rem takes,
    )

-- Errors or not, at most one digit more is out.
offs-write_waiting : (n b : ℕ) (e : RangeEncoder) → (write_waiting n b e).offs ≤ e.offs + n
unfolding write_waiting write_byte
offs-write_waiting zero b e = omega arith
offs-write_waiting (suc n) b e = ground (arith, offs-write_waiting n b (write_byte b e))

offs-write_rem :
    (k : ℕ) (rem : Option ℕ) (e : RangeEncoder) → (write_rem k rem e).offs ≤ e.offs + count_rem rem
unfolding write_byte count_rem
offs-write_rem k none e = omega arith
offs-write_rem k (some r) e = ground arith

pub digits-carry_out : (c : ℕ) (e : RangeEncoder) → digits (carry_out c e) ≤ digits e + 1
unfolding carry_out digits count_rem
digits-carry_out c e = ground (
  arith,
  offs-write_waiting e.ext ((255 + c / 256) % 256) (write_rem (c / 256) e.rem e),
  offs-write_rem (c / 256) e.rem e,
)

-- Errors stay.
write_byte-ok : (b : ℕ) (e : RangeEncoder) → (write_byte b e).err ≡ false → e.err ≡ false
unfolding write_byte
write_byte-ok b e ok = ground arith

write_waiting-ok : (n b : ℕ) (e : RangeEncoder) → (write_waiting n b e).err ≡ false → e.err ≡ false
unfolding write_waiting
write_waiting-ok zero b e ok = ok
write_waiting-ok (suc n) b e ok = write_byte-ok b e (write_waiting-ok n b (write_byte b e) ok)

write_rem-ok :
    (k : ℕ) (rem : Option ℕ) (e : RangeEncoder) → (write_rem k rem e).err ≡ false → e.err ≡ false
write_rem-ok k none e ok = ok
write_rem-ok k (some r) e ok = write_byte-ok (r + k) e ok

pub carry_out-ok : (c : ℕ) (e : RangeEncoder) → (carry_out c e).err ≡ false → e.err ≡ false
unfolding carry_out
carry_out-ok c e ok = elim (Bool-cases (c == 255)) [
  | inl waits ↦ rw waits at ok
  | inr writes ↦ write_rem-ok (c / 256) e.rem e (
      write_waiting-ok e.ext ((255 + c / 256) % 256) (write_rem (c / 256) e.rem e)
        (rw writes at ok))
]
