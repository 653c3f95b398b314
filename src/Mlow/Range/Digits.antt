-- ===== src/Mlow/Range/Digits.antt =====
-- The number whose digits are the first bytes of a buffer, and what a store does to it.
use meowcaller.Base.{
  ℕ, zero, suc, ◌+◌, ◌*◌, ◌≤◌, ◌<◌, ◌≡◌, refl, sym, ap, ◌∙◌, ◌≢◌, inl, inr, [], ◌∷◌, arith, ltb,
  ◌==◌, ltb→lt, ==_iff, Bool-cases, length, replicate, Bytes, IsBytes, byte_at,
}
use meowcaller.Mlow.Range.Encoder.{set_at}
use meowcaller.Mlow.Range.Flush.{zero_fill}

-- The number that the first `n` bytes spell; past its end a buffer reads as 0.
unfoldable pub prefix : Bytes → ℕ → ℕ
prefix buf zero = 0
prefix buf (suc n) = prefix buf n * 256 + byte_at buf n

pub prefix_step :
    (buf : Bytes) (m n : ℕ) → m ≡ n + 1 → prefix buf m ≡ prefix buf n * 256 + byte_at buf n
unfolding prefix
prefix_step buf m n e = let e' : m ≡ suc n = omega arith in ap (prefix buf) e'

-- The number that follows `a` when `n` digits `sym` are put behind it.
unfoldable pub put_digits : (sym n a : ℕ) → ℕ
put_digits sym zero a = a
put_digits sym (suc n) a = put_digits sym n (a * 256 + sym)

-- A carry turns the digits 255 into zeros.
pub put_digits_carry : (n a : ℕ) → put_digits 255 n a + 1 ≡ put_digits 0 n (a + 1)
unfolding put_digits
put_digits_carry zero a = refl
put_digits_carry (suc n) a =
    let e : a * 256 + 255 + 1 ≡ (a + 1) * 256 + 0 = omega arith in
    put_digits_carry n (a * 256 + 255) ∙ ap (put_digits 0 n) e

pub put_digits_last : (b n a : ℕ) → put_digits b (suc n) a ≡ put_digits b n a * 256 + b
unfolding put_digits
put_digits_last b zero a = refl
put_digits_last b (suc n) a = put_digits_last b n (a * 256 + b)

pub prefix-suc : (buf : Bytes) (n : ℕ) → prefix buf (n + 1) ≡ prefix buf n * 256 + byte_at buf n
unfolding prefix
prefix-suc buf n = let e : n + 1 ≡ suc n = omega arith in ap (prefix buf) e

pub length-set_at : (i b : ℕ) (buf : Bytes) → length (set_at i b buf) ≡ length buf
unfolding set_at
length-set_at i b [] = refl
length-set_at zero b (x ∷ xs) = refl
length-set_at (suc i) b (x ∷ xs) = ap suc (length-set_at i b xs)

pub get-set_at_same : (i b : ℕ) (buf : Bytes) → i < length buf → byte_at (set_at i b buf) i ≡ b
unfolding set_at
get-set_at_same i b [] h = absurd (omega arith)
get-set_at_same zero b (x ∷ xs) h = refl
get-set_at_same (suc i) b (x ∷ xs) h = get-set_at_same i b xs (omega arith)

pub get-set_at_other :
    (i j b : ℕ) (buf : Bytes) → j ≢ i → byte_at (set_at i b buf) j ≡ byte_at buf j
unfolding set_at
get-set_at_other i j b [] h = refl
get-set_at_other zero zero b (x ∷ xs) h = absurd (h refl)
get-set_at_other zero (suc j) b (x ∷ xs) h = refl
get-set_at_other (suc i) zero b (x ∷ xs) h = refl
get-set_at_other (suc i) (suc j) b (x ∷ xs) h = get-set_at_other i j b xs (λ e. h (ap suc e))

pub prefix-set_at : (i b n : ℕ) (buf : Bytes) → n ≤ i → prefix (set_at i b buf) n ≡ prefix buf n
unfolding prefix
prefix-set_at i b zero buf h = refl
prefix-set_at i b (suc n) buf h =
    omega
      (arith, prefix-set_at i b n buf (omega arith), get-set_at_other i n b buf (λ e. omega arith))

-- Clearing a stretch leaves what is in front of it.
pub prefix-zero_fill :
    (n i m : ℕ) (buf : Bytes) → m ≤ i → prefix (zero_fill n i buf) m ≡ prefix buf m
unfolding zero_fill
prefix-zero_fill zero i m buf h = refl
prefix-zero_fill (suc n) i m buf h =
    prefix-zero_fill n (i + 1) m (set_at i 0 buf) (omega arith) ∙ prefix-set_at i 0 m buf h

get-zero_fill_before :
    (n i j : ℕ) (buf : Bytes) → j < i → byte_at (zero_fill n i buf) j ≡ byte_at buf j
unfolding zero_fill
get-zero_fill_before zero i j buf h = refl
get-zero_fill_before (suc n) i j buf h =
    get-zero_fill_before n (i + 1) j (set_at i 0 buf) (omega arith)
    ∙ get-set_at_other i j 0 buf (λ e. omega arith)

pub byte_at_past : (j : ℕ) (buf : Bytes) → length buf ≤ j → byte_at buf j ≡ 0
byte_at_past j [] h = refl
byte_at_past zero (x ∷ xs) h = absurd (omega arith)
byte_at_past (suc j) (x ∷ xs) h = byte_at_past j xs (omega arith)

-- From a place on, all bytes up to the end are cleared.
pub get-zero_fill :
    (n i j : ℕ) (buf : Bytes) → length buf ≤ n + i → i ≤ j → byte_at (zero_fill n i buf) j ≡ 0
unfolding zero_fill
get-zero_fill zero i j buf full h = byte_at_past j buf (omega arith)
get-zero_fill (suc n) i j buf full h = elim (Bool-cases (j == i)) [
  | inl e ↦ elim (Bool-cases (ltb i (length buf))) [
    | inl lt ↦
        let same : j ≡ i = (==_iff j i).0 e in
        get-zero_fill_before n (i + 1) j (set_at i 0 buf) (omega arith)
        ∙ ap (byte_at (set_at i 0 buf)) same
        ∙ get-set_at_same i 0 buf (ltb→lt i (length buf) lt)
    | inr ge ↦
        let same : j ≡ i = (==_iff j i).0 e in
        get-zero_fill_before n (i + 1) j (set_at i 0 buf) (omega arith)
        ∙ byte_at_past j (set_at i 0 buf) (ground (arith, length-set_at i 0 buf))
  ]
  | inr ne ↦
      get-zero_fill n (i + 1) j (set_at i 0 buf) (omega (arith, length-set_at i 0 buf))
        (ground arith)
]

-- Bytes that are 0 shift the number by whole digits.
pub prefix_zeros :
    (buf : Bytes) (n k : ℕ)
    → ((j : ℕ) → n ≤ j → byte_at buf j ≡ 0)
    → prefix buf (n + k) ≡ put_digits 0 k (prefix buf n)
unfolding prefix put_digits
prefix_zeros buf n zero h = let e : n + 0 ≡ n = omega arith in ap (prefix buf) e
prefix_zeros buf n (suc k) h =
    let shift : n + suc k ≡ (n + 1) + k = omega arith in
    let here : prefix buf (n + 1) ≡ prefix buf n * 256 + 0 =
      omega (arith, prefix-suc buf n, h n (omega arith)) in
    ap (prefix buf) shift
    ∙ prefix_zeros buf (n + 1) k (λ j le. h j (omega arith))
    ∙ ap (put_digits 0 k) here

-- Bytes stay bytes.
pub set_at-IsBytes : (i b : ℕ) (buf : Bytes) → b < 256 → IsBytes buf → IsBytes (set_at i b buf)
unfolding set_at
set_at-IsBytes i b [] hb h = h
set_at-IsBytes zero b (x ∷ xs) hb (hx, h) = (hb, h)
set_at-IsBytes (suc i) b (x ∷ xs) hb (hx, h) = (hx, set_at-IsBytes i b xs hb h)

pub zero_fill-IsBytes : (n i : ℕ) (buf : Bytes) → IsBytes buf → IsBytes (zero_fill n i buf)
unfolding zero_fill
zero_fill-IsBytes zero i buf h = h
zero_fill-IsBytes (suc n) i buf h =
    zero_fill-IsBytes n (i + 1) (set_at i 0 buf) (set_at-IsBytes i 0 buf (omega arith) h)

pub zeros-IsBytes : (n : ℕ) → IsBytes (replicate n 0)
zeros-IsBytes zero = tt
zeros-IsBytes (suc n) = (omega arith, zeros-IsBytes n)
