-- ===== src/Mlow/Range/End.antt =====
-- The choice of the last number by `Done`.
use meowcaller.Base.{
  ℕ, zero, suc, ◌+◌, ◌-◌, ◌*◌, ◌/◌, ◌%◌, ◌^◌, ◌≤◌, ◌<◌, ◌≡◌, refl, sym, inl, inr, false, arith, ltb,
  ◌==◌, Bool-cases, IsU32,
}
use native.Mathlib.Nat.{pow-suc, pow-le-pow_right}
use meowcaller.Mlow.Range.Decoder.{ilog, ilog_on, ec_code_top, ec_code_bot}
use meowcaller.Mlow.Range.Encoder.{RangeEncoder}
use meowcaller.Mlow.Range.Flush.{Ending, choose_end}
use meowcaller.Mlow.Range.Interval.{IsLive}
use meowcaller.Mlow.Range.Step.{IsReady}

ilog_on-zero : (n : ℕ) → ilog_on n 0 ≡ 0
unfolding ilog_on
ilog_on-zero zero = refl
ilog_on-zero (suc n) = refl

-- `ilog` is the count of binary digits.
ilog_on-bounds : (n x : ℕ) → 0 < x → x < 2 ^ n → (x < 2 ^ ilog_on n x) × (2 ^ ilog_on n x ≤ 2 * x)
unfolding ilog_on
ilog_on-bounds zero x pos lt = absurd (omega arith)
ilog_on-bounds (suc n) x pos lt =
    let nonzero : (x == 0) ≡ false = ground arith in
    rw nonzero (elim (Bool-cases (ltb 1 x)) [
      | inl big ↦
          ground (arith, ilog_on-bounds n (x / 2), pow-suc 2 n, pow-suc 2 (ilog_on n (x / 2)))
      | inr one ↦
          let half : x / 2 ≡ 0 = ground arith in rw half (rw (ilog_on-zero n) (ground arith))
    ])

pub ilog-bounds : (x : ℕ) → 0 < x → IsU32 x → (x < 2 ^ ilog x) × (2 ^ ilog x ≤ 2 * x)
unfolding ilog
ilog-bounds x pos lt = ilog_on-bounds 32 x pos lt

ready_ilog :
    (rng : ℕ)
    → ec_code_bot < rng
    → rng ≤ ec_code_top
    → (24 ≤ ilog rng) × (ilog rng ≤ 32) × (2 ^ ilog rng ≤ 2 * rng)
ready_ilog rng big top =
    let b = ilog-bounds rng (omega arith) (omega arith) in
    elim (Bool-cases (ltb (ilog rng) 24)) [
      | inl small ↦
          let le = pow-le-pow_right {n = 2} (omega arith) {i = ilog rng} {j = 23} (ground arith) in
          absurd (omega arith)
      | inr big ↦ elim (Bool-cases (ltb 32 (ilog rng))) [
        | inl large ↦
            let le =
              pow-le-pow_right {n = 2} (omega arith) {i = 33} {j = ilog rng} (ground arith) in
            absurd (omega arith)
        | inr fits ↦ (ground arith, ground arith, b.1)
      ]
    ]

-- The number that ends a stream is in the interval, and its bits are the upper ones of `bits`.
unfoldable pub IsEnding : (val rng : ℕ) → Ending → Type 0
IsEnding val rng c =
    (c.bits ≤ 9)
    × (val ≤ c.end)
    × (c.end < val + rng)
    × (c.bits ≡ 0 → c.end ≡ 0)
    × (c.bits ≤ 8 → c.end % 8388608 ≡ 0)
    × (c.end % 4194304 ≡ 0)

choose_end-at :
    (j : ℕ) (e : RangeEncoder)
    → j ≤ 8
    → ilog e.rng ≡ 24 + j
    → 2 ^ (24 + j) ≤ 2 * e.rng
    → e.rng ≤ ec_code_top
    → e.val + e.rng ≤ 4294967296
    → IsEnding e.val e.rng (choose_end e)
unfolding choose_end IsEnding
choose_end-at zero e le k unit top fits = rw k (ground arith)
choose_end-at (suc zero) e le k unit top fits = rw k (ground arith)
choose_end-at (suc (suc zero)) e le k unit top fits = rw k (ground arith)
choose_end-at (suc (suc (suc zero))) e le k unit top fits = rw k (ground arith)
choose_end-at (suc (suc (suc (suc zero)))) e le k unit top fits = rw k (ground arith)
choose_end-at (suc (suc (suc (suc (suc zero))))) e le k unit top fits = rw k (ground arith)
choose_end-at (suc (suc (suc (suc (suc (suc zero)))))) e le k unit top fits = rw k (ground arith)
choose_end-at (suc (suc (suc (suc (suc (suc (suc zero))))))) e le k unit top fits =
    rw k (ground arith)
choose_end-at (suc (suc (suc (suc (suc (suc (suc (suc zero)))))))) e le k unit top fits =
    rw k (ground arith)
choose_end-at (suc (suc (suc (suc (suc (suc (suc (suc (suc j))))))))) e le k unit top fits =
    absurd (omega arith)

pub choose_end-IsEnding : (e : RangeEncoder) → IsReady e → IsEnding e.val e.rng (choose_end e)
unfolding IsReady IsLive
choose_end-IsEnding e ready =
    let r = ready_ilog e.rng ready.1 ready.0.1 in
    let k : ilog e.rng ≡ 24 + (ilog e.rng - 24) = omega (arith, r) in
    choose_end-at (ilog e.rng - 24) e (omega (arith, r)) k (rw (sym k) r.2) ready.0.1 ready.0.2
