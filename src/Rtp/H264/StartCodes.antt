-- ===== src/Rtp/H264/StartCodes.antt =====
-- Rounds of the loop of `SplitAnnexB`: over the bytes of a unit, at its end, and at a start code.
use meowcaller.Base.{
  ℕ, zero, suc, ◌+◌, ◌<◌, ◌≡◌, refl, ap, ◌∙◌, Bool, true, false, ◌&&◌, ◌||◌, ◌==◌, Option, some, [],
  ◌∷◌, ◌++◌, arith, length, drop, length-drop, length-append, take-append, get_or-drop, Bytes,
  byte_at,
}
use meowcaller.Rtp.H264.{annex_b_start_code_len, close_nalu, trim_zeros, split_from}

-- Whether the bytes 00 00 01 stand anywhere in a unit.
abbrev pub has_start_code : Bytes → Bool
has_start_code [] = false
has_start_code (b ∷ unit) =
    (b == 0 && byte_at unit 0 == 0 && byte_at unit 1 == 1) || has_start_code unit

abbrev pub last_byte : Bytes → ℕ
last_byte [] = 0
last_byte (b ∷ []) = b
last_byte (b ∷ c ∷ unit) = last_byte (c ∷ unit)

-- A NAL unit as RFC 6184 has it in a byte stream: no start code inside, and no zero byte at its end.
abbrev pub IsStreamUnit : Bytes → Type 0
IsStreamUnit unit = (has_start_code unit ≡ false) × (0 < last_byte unit)

-- A start code of four bytes or of three.
abbrev pub start_code : Bool → Bytes
start_code true = 0 ∷ 0 ∷ 0 ∷ 1 ∷ []
start_code false = 0 ∷ 0 ∷ 1 ∷ []

annex_b_start_code_len-drop :
    (xs : Bytes) (i : ℕ) → annex_b_start_code_len xs i ≡ annex_b_start_code_len (drop i xs) 0
unfolding annex_b_start_code_len
annex_b_start_code_len-drop xs i = ground (
  arith,
  get_or-drop i 0 xs 0,
  get_or-drop i 1 xs 0,
  get_or-drop i 2 xs 0,
  get_or-drop i 3 xs 0,
  length-drop i xs,
)

code_at_start :
    (long : Bool) (ys : Bytes)
    → annex_b_start_code_len (start_code long ++ ys) 0 ≡ length (start_code long)
unfolding annex_b_start_code_len
code_at_start true ys = ground arith
code_at_start false ys = ground arith

-- No start code begins inside of a unit.
no_code_inside :
    (b : ℕ) (unit ys : Bytes)
    → has_start_code (b ∷ unit) ≡ false
    → 0 < last_byte (b ∷ unit)
    → annex_b_start_code_len (b ∷ (unit ++ ys)) 0 ≡ 0
unfolding annex_b_start_code_len
no_code_inside b [] ys h k = ground arith
no_code_inside b (c ∷ []) ys h k = ground arith
no_code_inside b (c ∷ d ∷ []) ys h k = ground arith
no_code_inside b (c ∷ d ∷ e ∷ unit) ys h k = ground arith

drop-suc :
    (i : ℕ) (xs : Bytes) (b : ℕ) (ys : Bytes)
    → drop i xs ≡ b ∷ ys
    → (drop (suc i) xs ≡ ys) × (i < length xs)
drop-suc zero [] b ys h = ground arith
drop-suc zero (x ∷ xs) b ys h = ground arith
drop-suc (suc i) [] b ys h = ground arith
drop-suc (suc i) (x ∷ xs) b ys h = ground (arith, drop-suc i xs b ys)

split_from-step :
    (fuel : ℕ) (unit tail xs : Bytes) (b : ℕ) (start : Option ℕ) (i : ℕ)
    → drop i xs ≡ b ∷ (unit ++ tail)
    → has_start_code (b ∷ unit) ≡ false
    → 0 < last_byte (b ∷ unit)
    → split_from (suc fuel) xs start i ≡ split_from fuel xs start (suc i)
unfolding split_from
split_from-step fuel unit tail xs b start i at h k =
    let none_here : annex_b_start_code_len xs i ≡ 0 =
      annex_b_start_code_len-drop xs i
      ∙ ap (λ (ys : Bytes). annex_b_start_code_len ys 0) at
      ∙ no_code_inside b unit tail h k in
    ground (arith, none_here, drop-suc i xs b (unit ++ tail) at)

-- The loop goes over a unit to its end.
pub split_from-over :
    (fuel : ℕ) (unit tail xs : Bytes) (start : Option ℕ) (i : ℕ)
    → drop i xs ≡ unit ++ tail
    → has_start_code unit ≡ false
    → 0 < last_byte unit
    → split_from (length unit + fuel) xs start i ≡ split_from fuel xs start (i + length unit)
split_from-over fuel [] tail xs start i at h k = absurd (omega arith)
split_from-over fuel (b ∷ []) tail xs start i at h k =
    ground (arith, split_from-step fuel [] tail xs b start i at h k)
split_from-over fuel (b ∷ c ∷ unit) tail xs start i at h k =
    let over =
      split_from-over fuel (c ∷ unit) tail xs start (suc i)
        (drop-suc i xs b (c ∷ (unit ++ tail)) at).0 (ground arith) k in
    let step = split_from-step (length (c ∷ unit) + fuel) (c ∷ unit) tail xs b start i at h k in
    ground (arith, step, over)

-- The end of a unit is its last byte.
trim_zeros-last :
    (unit tail xs : Bytes) (start i : ℕ)
    → drop i xs ≡ unit ++ tail
    → 0 < last_byte unit
    → trim_zeros xs start (i + length unit) ≡ i + length unit
unfolding trim_zeros
trim_zeros-last [] tail xs start i at k = absurd (omega arith)
trim_zeros-last (b ∷ []) tail xs start i at k = ground (arith, get_or-drop i 0 xs 0)
trim_zeros-last (b ∷ c ∷ unit) tail xs start i at k = ground (
  arith,
  trim_zeros-last (c ∷ unit) tail xs start (suc i) (drop-suc i xs b (c ∷ (unit ++ tail)) at).0 k,
)

pub close_nalu-unit :
    (unit tail xs : Bytes) (i : ℕ)
    → drop i xs ≡ unit ++ tail
    → 0 < last_byte unit
    → close_nalu xs (some i) (i + length unit) ≡ unit ∷ []
unfolding close_nalu
close_nalu-unit [] tail xs i at k = absurd (omega arith)
close_nalu-unit (b ∷ unit) tail xs i at k = ground (
  arith,
  trim_zeros-last (b ∷ unit) tail xs i i at k,
  take-append (length (b ∷ unit)) (b ∷ unit) tail refl,
)

pub drop_over :
    (unit tail xs : Bytes) (i : ℕ) → drop i xs ≡ unit ++ tail → drop (i + length unit) xs ≡ tail
drop_over [] tail xs i at = ground (arith, at)
drop_over (b ∷ unit) tail xs i at =
    ground (arith, drop_over unit tail xs (suc i) (drop-suc i xs b (unit ++ tail) at).0)

pub length-start_code : (long : Bool) → 0 < length (start_code long)
length-start_code true = omega arith
length-start_code false = omega arith

drop_inside : (ys xs : Bytes) (i : ℕ) → drop i xs ≡ ys → 0 < length ys → i < length xs
drop_inside ys xs i at k = omega (arith, length-drop i xs, ap length at)

-- A start code closes the unit in front of it and opens the next one.
pub split_from-code :
    (fuel : ℕ) (long : Bool) (tail xs : Bytes) (start : Option ℕ) (i : ℕ)
    → drop i xs ≡ start_code long ++ tail
    → split_from (suc fuel) xs start i
      ≡ close_nalu xs start i
        ++ split_from fuel xs (some (i + length (start_code long))) (i + length (start_code long))
unfolding split_from
split_from-code fuel long tail xs start i at =
    let code : annex_b_start_code_len xs i ≡ length (start_code long) =
      annex_b_start_code_len-drop xs i
      ∙ ap (λ (ys : Bytes). annex_b_start_code_len ys 0) at
      ∙ code_at_start long tail in
    ground (
      arith,
      code,
      length-start_code long,
      drop_inside (start_code long ++ tail) xs i at,
      length-append (start_code long) tail,
    )
