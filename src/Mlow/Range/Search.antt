-- ===== src/Mlow/Range/Search.antt =====
-- The searches in tables end at the symbol whose part the value is in.
use meowcaller.Base.{
  ℕ, zero, suc, ◌+◌, ◌*◌, ◌≤◌, ◌<◌, ◌≡◌, refl, ap, ◌∙◌, true, false, some, List, [], ◌∷◌, arith,
  ltb, leb, lt→ltb, length, u32, byte_at,
}
use meowcaller.Mlow.Range.Symbols.{Located, find_cdf, find_icdf}
use native.Mathlib.Nat.{mul-le-mul_left}
use meowcaller.Mlow.Range.Split.{u32-lt}
use meowcaller.Mlow.Range.Codec.{Rising, Falling}

pub Rising-le :
    (x : ℕ) (xs : List ℕ) (s : ℕ) → Rising (x ∷ xs) → s < length (x ∷ xs) → x ≤ byte_at (x ∷ xs) s
unfolding Rising
Rising-le x xs zero h lt = omega arith
Rising-le x [] (suc s) h lt = absurd (omega arith)
Rising-le x (y ∷ xs) (suc s) (le, h) lt = omega (arith, Rising-le y xs s h (omega arith))

pub Rising-between :
    (xs : List ℕ) (s t : ℕ) → Rising xs → s ≤ t → t < length xs → byte_at xs s ≤ byte_at xs t
unfolding Rising
Rising-between [] s t h le lt = absurd (omega arith)
Rising-between (x ∷ xs) zero t h le lt = Rising-le x xs t h lt
Rising-between (x ∷ xs) (suc s) zero h le lt = absurd (omega arith)
Rising-between (x ∷ []) (suc s) (suc t) h le lt = absurd (omega arith)
Rising-between (x ∷ y ∷ xs) (suc s) (suc t) (h0, h) le lt =
    Rising-between (y ∷ xs) s t h (omega arith) (omega arith)

pub Falling-le :
    (x : ℕ) (xs : List ℕ) (s : ℕ) → Falling (x ∷ xs) → s < length (x ∷ xs) → byte_at (x ∷ xs) s ≤ x
unfolding Falling
Falling-le x xs zero h lt = omega arith
Falling-le x [] (suc s) h lt = absurd (omega arith)
Falling-le x (y ∷ xs) (suc s) (le, h) lt = omega (arith, Falling-le y xs s h (omega arith))

pub find_cdf-finds :
    (target k s : ℕ) (xs : List ℕ)
    → Rising xs
    → suc s < length xs
    → byte_at xs s ≤ target
    → target < byte_at xs (suc s)
    → find_cdf target k xs
      ≡ some (record { index = k + s; before = byte_at xs s; after = byte_at xs (suc s) })
unfolding find_cdf Rising
find_cdf-finds target k s [] h lt from to = absurd (omega arith)
find_cdf-finds target k s (x ∷ []) h lt from to = absurd (omega arith)
find_cdf-finds target k zero (x ∷ y ∷ xs) h lt from to =
    let here : ltb target y ≡ true = lt→ltb target y to in
    let e : k ≡ k + 0 = omega arith in
    rw here (ap (λ (i : ℕ). some (record { index = i; before = x; after = y })) e)
find_cdf-finds target k (suc s) (x ∷ y ∷ xs) (le, h) lt from to =
    let below = Rising-le y xs s h (omega arith) in
    let not_here : ltb target y ≡ false = ground (arith, below) in
    let e : k + 1 + s ≡ k + suc s = omega arith in
    rw not_here (
      find_cdf-finds target (k + 1) s (y ∷ xs) h (omega arith) from to
      ∙ ap
          (λ (i : ℕ).
            some
              (record { index = i; before = byte_at (y ∷ xs) s; after = byte_at (y ∷ xs) (suc s) }))
          e)

-- The entry before the symbol's own, or what stands before the table.
abbrev pub before_at : (r t : ℕ) → List ℕ → ℕ → ℕ
before_at r t xs zero = t
before_at r t xs (suc s) = u32 (r * byte_at xs s)

-- The value is above the entry before the symbol's own.
unfoldable pub Above : (r dv : ℕ) → List ℕ → ℕ → Type 0
Above r dv xs zero = Unit
Above r dv xs (suc s) = dv < r * byte_at xs s

Above-tail : (r dv x : ℕ) (xs : List ℕ) (s : ℕ) → Above r dv (x ∷ xs) (suc s) → Above r dv xs s
unfolding Above
Above-tail r dv x xs zero h = tt
Above-tail r dv x xs (suc s) h = h

before_tail :
    (r t x : ℕ) (xs : List ℕ) (s : ℕ)
    → before_at r (u32 (r * x)) xs s ≡ before_at r t (x ∷ xs) (suc s)
before_tail r t x xs zero = refl
before_tail r t x xs (suc s) = refl

pub find_icdf-finds :
    (r dv t k s : ℕ) (xs : List ℕ)
    → Falling xs
    → s < length xs
    → ((j : ℕ) → j < length xs → r * byte_at xs j < 4294967296)
    → r * byte_at xs s ≤ dv
    → Above r dv xs s
    → find_icdf r dv t k xs
      ≡ record { index = k + s; before = before_at r t xs s; after = u32 (r * byte_at xs s) }
unfolding find_icdf Falling Above
find_icdf-finds r dv t k s [] h lt fits from to = absurd (omega arith)
find_icdf-finds r dv t k zero (x ∷ []) h lt fits from to =
    let e : k ≡ k + 0 = omega arith in
    ap (λ (i : ℕ). record { index = i; before = t; after = u32 (r * x) }) e
find_icdf-finds r dv t k (suc s) (x ∷ []) h lt fits from to = absurd (omega arith)
find_icdf-finds r dv t k zero (x ∷ y ∷ xs) h lt fits from to =
    let whole = u32-lt (r * x) (fits 0 (omega arith)) in
    let here : leb (u32 (r * x)) dv ≡ true = ground arith in
    let e : k ≡ k + 0 = omega arith in
    rw here (ap (λ (i : ℕ). record { index = i; before = t; after = u32 (r * x) }) e)
find_icdf-finds r dv t k (suc s) (x ∷ y ∷ xs) (le, h) lt fits from to =
    let whole = u32-lt (r * x) (fits 0 (omega arith)) in
    let above = mul-le-mul_left r (Falling-le x (y ∷ xs) s (le, h) (omega arith)) in
    let not_here : leb (u32 (r * x)) dv ≡ false = ground (arith, whole, above, to) in
    let e : k + 1 + s ≡ k + suc s = omega arith in
    let rest =
      find_icdf-finds r dv (u32 (r * x)) (k + 1) s (y ∷ xs) h (omega arith)
        (λ j lt'. fits (suc j) (omega arith)) from (Above-tail r dv x (y ∷ xs) s to) in
    rw not_here (rest ∙ found (u32 (r * byte_at (y ∷ xs) s)) e (before_tail r t x (y ∷ xs) s))
  where
    found :
        (a : ℕ) {i i' b b' : ℕ}
        → i ≡ i'
        → b ≡ b'
        → ◌≡◌ {A = Located}
            (record { index = i; before = b; after = a })
            (record { index = i'; before = b'; after = a })
    found a p q = cc
