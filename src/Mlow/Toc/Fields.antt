-- ===== src/Mlow/Toc/Fields.antt =====
-- The fields of a first byte, by its bits.
use meowcaller.Base.{
  ℕ, zero, suc, ◌+◌, ◌*◌, ◌<◌, ◌≡◌, refl, Bool, true, false, not, ◌&&◌, ◌||◌, ◌==◌, arith,
  if◌then◌else◌,
}
use meowcaller.Base.Bits.{passes, passes_at}
use meowcaller.Mlow.Toc.{SmplToc, parse_smpl_toc, standard_opus_frame_ms}

-- The byte with the given bits, upper bits first, and a frame code of two bits in the middle.
unfoldable pub first_byte : (sid vad wide : Bool) (code : ℕ) (flag2 bit1 flag0 : Bool) → ℕ
first_byte sid vad wide code flag2 bit1 flag0 =
    (if sid then 128 else 0)
    + (if vad then 64 else 0)
    + (if wide then 32 else 0)
    + code * 8
    + (if flag2 then 4 else 0)
    + (if bit1 then 2 else 0)
    + (if flag0 then 1 else 0)

abbrev opus_ms : ℕ → ℕ
opus_ms zero = 3
opus_ms (suc zero) = 5
opus_ms (suc (suc zero)) = 10
opus_ms (suc (suc (suc code))) = 20

abbrev smpl_ms : ℕ → ℕ
smpl_ms zero = 10
smpl_ms (suc zero) = 20
smpl_ms (suc (suc zero)) = 60
smpl_ms (suc (suc (suc code))) = 120

-- What these bits mean: a packet with both upper bits set is a standard Opus packet, and tells its
-- frame size only.
abbrev pub fields : (sid vad wide : Bool) (code : ℕ) (flag2 bit1 flag0 : Bool) → SmplToc
fields true true wide code flag2 bit1 flag0 = record {
  std_opus = true;
  sid = false;
  vad = false;
  sample_rate = 16000;
  frame_ms = opus_ms code;
  voiced = false;
  active = false;
  flag2 = false;
  flag0 = false;
}
fields sid vad wide code flag2 bit1 flag0 = record {
  std_opus = false;
  sid = sid;
  vad = vad;
  sample_rate = if wide then 32000 else 16000;
  frame_ms = smpl_ms code;
  voiced = vad && bit1;
  active = vad || bit1;
  flag2 = flag2;
  flag0 = flag0;
}

abbrev same_bit : Bool → Bool → Bool
same_bit a b = if a then b else not b

same_bit-≡ : (a b : Bool) → same_bit a b ≡ true → a ≡ b
same_bit-≡ a b e = ground arith

-- Whether two results agree in every field.
abbrev same_toc : SmplToc → SmplToc → Bool
same_toc s t =
    same_bit s.std_opus t.std_opus
    && same_bit s.sid t.sid
    && same_bit s.vad t.vad
    && s.sample_rate == t.sample_rate
    && s.frame_ms == t.frame_ms
    && same_bit s.voiced t.voiced
    && same_bit s.active t.active
    && same_bit s.flag2 t.flag2
    && same_bit s.flag0 t.flag0

same_toc-≡ : (s t : SmplToc) → same_toc s t ≡ true → s ≡ t
same_toc-≡ s t e = ground arith

-- Whether a test passes at all values of three bits.
abbrev on_bits : (Bool → Bool → Bool → Bool) → Bool
on_bits test =
    test true true true
    && test true true false
    && test true false true
    && test true false false
    && test false true true
    && test false true false
    && test false false true
    && test false false false

on_bits_at :
    (test : Bool → Bool → Bool → Bool) (a b c : Bool) → on_bits test ≡ true → test a b c ≡ true
on_bits_at test a b c e = ground arith

abbrev agrees : (sid vad wide flag2 bit1 flag0 : Bool) → ℕ → Bool
agrees sid vad wide flag2 bit1 flag0 code =
    same_toc (parse_smpl_toc (first_byte sid vad wide code flag2 bit1 flag0))
      (fields sid vad wide code flag2 bit1 flag0)

abbrev flags_agree : (sid vad wide : Bool) → (flag2 bit1 flag0 : Bool) → Bool
flags_agree sid vad wide flag2 bit1 flag0 = passes (agrees sid vad wide flag2 bit1 flag0) 4

all_agree : on_bits (λ sid vad wide. on_bits (flags_agree sid vad wide)) ≡ true
unfolding passes parse_smpl_toc first_byte standard_opus_frame_ms
all_agree = refl

-- For any bits 7 to 5 and 2 to 0 and any frame code on bits 4 and 3, ParseSmplTOC returns every
-- field as the bits say: with both upper bits set a standard Opus packet at 16 kHz of 3, 5, 10 or
-- 20 ms and no other field, and otherwise the flags, the sample rate, the frame size of 10, 20,
-- 60 or 120 ms, voiced as VAD and bit 1, and active as VAD or bit 1.
pub parse_smpl_toc-first_byte :
    (sid vad wide : Bool) (code : ℕ) (flag2 bit1 flag0 : Bool)
    → code < 4
    → parse_smpl_toc (first_byte sid vad wide code flag2 bit1 flag0)
      ≡ fields sid vad wide code flag2 bit1 flag0
parse_smpl_toc-first_byte sid vad wide code flag2 bit1 flag0 h = same_toc-≡ _ _ (
    passes_at (agrees sid vad wide flag2 bit1 flag0) 4 code h (
      on_bits_at (flags_agree sid vad wide) flag2 bit1 flag0
        (on_bits_at (λ x y z. on_bits (flags_agree x y z)) sid vad wide all_agree)))
