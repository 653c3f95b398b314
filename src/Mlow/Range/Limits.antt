-- ===== src/Mlow/Range/Limits.antt =====
-- The searches in tables end inside them on any value.
use meowcaller.Base.{
  ℕ, suc, ◌+◌, ◌-◌, ◌*◌, ◌≤◌, ◌<◌, ◌≡◌, refl, sym, ◌∙◌, inl, inr, some, List, [], ◌∷◌, arith, ltb,
  leb, ltb→lt, leb→le, Bool-cases, length, u32, byte_at,
}
use native.Mathlib.Nat.{mul-le-mul_left}
use meowcaller.Mlow.Range.Symbols.{Located, find_cdf, find_icdf}
use meowcaller.Mlow.Range.Split.{u32-lt}
use meowcaller.Mlow.Range.Codec.{Rising, Falling}

abbrev pub last_of : List ℕ → ℕ
last_of xs = byte_at xs (length xs - 1)

last-tail : (x y : ℕ) (xs : List ℕ) → last_of (x ∷ y ∷ xs) ≡ last_of (y ∷ xs)
last-tail x y xs =
    let e : suc (suc (length xs)) - 1 ≡ suc (length xs) = omega arith in
    let f : suc (length xs) - 1 ≡ length xs = omega arith in rw (e, f) refl

-- What the search in a table of frequencies finds.
unfoldable pub FoundIn : (target k : ℕ) → List ℕ → Located → Type 0
FoundIn target k xs f =
    (f.index + 1 < k + length xs)
    × (k ≤ f.index)
    × (byte_at xs 0 ≤ f.before)
    × (f.before ≤ target)
    × (target < f.after)
    × (f.after ≤ last_of xs)

Rising-last : (x : ℕ) (xs : List ℕ) → Rising (x ∷ xs) → x ≤ last_of (x ∷ xs)
unfolding Rising
Rising-last x [] h = omega arith
Rising-last x (y ∷ xs) (le, h) = omega (arith, Rising-last y xs h, last-tail x y xs)

pub find_cdf-FoundIn :
    (target k : ℕ) (xs : List ℕ)
    → Rising xs
    → byte_at xs 0 ≤ target
    → target < last_of xs
    → (f : Located) × (find_cdf target k xs ≡ some f) × FoundIn target k xs f
unfolding find_cdf Rising FoundIn
find_cdf-FoundIn target k [] h from to = absurd (omega arith)
find_cdf-FoundIn target k (x ∷ []) h from to = absurd (omega arith)
find_cdf-FoundIn target k (x ∷ y ∷ xs) (le, h) from to = elim (Bool-cases (ltb target y)) [
  | inl here ↦ (
    record { index = k; before = x; after = y },
    rw here refl,
    (
      omega arith,
      omega arith,
      omega arith,
      from,
      ltb→lt target y here,
      omega (arith, Rising-last y xs h, last-tail x y xs),
    ),
  )
  | inr not_here ↦
      let rest =
        find_cdf-FoundIn target (k + 1) (y ∷ xs) h (ground arith)
          (omega (arith, last-tail x y xs)) in
      (rest.0, rw not_here rest.1, omega (arith, rest.2, last-tail x y xs))
]

-- What the search in an inverse table finds.
unfoldable pub FoundBelow : (dv t k : ℕ) → List ℕ → Located → Type 0
FoundBelow dv t k xs f =
    (f.index < k + length xs) × (f.after ≤ dv) × (dv < f.before) × (f.before ≤ t)

pub find_icdf-FoundBelow :
    (r dv t k : ℕ) (xs : List ℕ)
    → Falling xs
    → 0 < length xs
    → last_of xs ≡ 0
    → ((x : ℕ) → x ≤ byte_at xs 0 → r * x < 4294967296)
    → r * byte_at xs 0 ≤ t
    → dv < t
    → FoundBelow dv t k xs (find_icdf r dv t k xs)
unfolding find_icdf Falling FoundBelow
find_icdf-FoundBelow r dv t k [] h some_entry last fits first below = absurd (omega arith)
find_icdf-FoundBelow r dv t k (x ∷ []) h some_entry last fits first below =
    rw last (omega arith, omega arith, below, omega arith)
find_icdf-FoundBelow r dv t k (x ∷ y ∷ xs) (le, h) some_entry last fits first below =
    let whole = u32-lt (r * x) (fits x (omega arith)) in
    elim (Bool-cases (leb (u32 (r * x)) dv)) [
      | inl here ↦
          let le' = leb→le (u32 (r * x)) dv here in rw here (omega arith, le', below, omega arith)
      | inr not_here ↦
          let above : dv < u32 (r * x) = ground arith in
          let rest =
            find_icdf-FoundBelow r dv (u32 (r * x)) (k + 1) (y ∷ xs) h (omega arith)
              (sym (last-tail x y xs) ∙ last) (λ x' le'. fits x' (omega arith))
              (omega (arith, whole, mul-le-mul_left r le)) above in
          rw not_here (omega arith, rest.1, rest.2, omega (arith, rest.3, whole))
    ]
