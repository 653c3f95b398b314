-- ===== src/Srtp/Hbh/Icm.antt =====
-- The cipher undoes itself.
use meowcaller.Base.{
  ℕ, zero, suc, ◌-◌, ◌≤◌, ◌<◌, min, ◌≡◌, refl, ap, ◌∙◌, [], ◌∷◌, ◌++◌, append-nil, arith, length,
  take, drop, length-append, take-append-drop, length-take, length-drop, take-append, drop-append,
  take-length, All-append, All-drop, All-take, Bytes, IsU8, IsBytes,
}
use mathlib.Core.Path.{ap₂}
use meowcaller.Base.Bits.{xor_twice, xor-IsByte}
use meowcaller.Srtp.Hbh.{Aes, xor_bytes, next_counter, icm_blocks}

length-xor_bytes : (xs ks : Bytes) → length (xor_bytes xs ks) ≡ length xs
unfolding xor_bytes
length-xor_bytes [] ks = refl
length-xor_bytes (x ∷ xs) [] = refl
length-xor_bytes (x ∷ xs) (k ∷ ks) = ap suc (length-xor_bytes xs ks)

xor_bytes_twice : (xs ks : Bytes) → IsBytes xs → IsBytes ks → xor_bytes (xor_bytes xs ks) ks ≡ xs
unfolding xor_bytes
xor_bytes_twice [] ks h k = refl
xor_bytes_twice (x ∷ xs) [] h k = refl
xor_bytes_twice (x ∷ xs) (y ∷ ks) (hx, h) (hy, k) =
    ap₂ ◌∷◌ (xor_twice x y hx hy) (xor_bytes_twice xs ks h k)

xor_bytes-IsBytes : (xs ks : Bytes) → IsBytes xs → IsBytes ks → IsBytes (xor_bytes xs ks)
unfolding xor_bytes
xor_bytes-IsBytes [] ks h k = tt
xor_bytes-IsBytes (x ∷ xs) [] h k = h
xor_bytes-IsBytes (x ∷ xs) (y ∷ ks) (hx, h) (hy, k) =
    (xor-IsByte x y hx hy, xor_bytes-IsBytes xs ks h k)

module _ (a : Aes) where
  icm_blocks-nil : (fuel : ℕ) (key counter : Bytes) → icm_blocks a fuel key counter [] ≡ []
  unfolding icm_blocks
  icm_blocks-nil zero key counter = refl
  icm_blocks-nil (suc fuel) key counter = refl

  pub icm_blocks-cons :
      (fuel : ℕ) (key counter ys : Bytes)
      → 0 < length ys
      → icm_blocks a (suc fuel) key counter ys
        ≡ xor_bytes (take 16 ys) (a.block key counter)
          ++ icm_blocks a fuel key (next_counter counter) (drop 16 ys)
  unfolding icm_blocks
  icm_blocks-cons fuel key counter ys h = ground arith

  pub icm_blocks-IsBytes :
      (fuel : ℕ) (key counter xs : Bytes) → IsBytes xs → IsBytes (icm_blocks a fuel key counter xs)
  unfolding icm_blocks
  icm_blocks-IsBytes zero key counter xs h = tt
  icm_blocks-IsBytes (suc fuel) key counter [] h = tt
  icm_blocks-IsBytes (suc fuel) key counter (x ∷ xs) h =
      let ys = x ∷ xs in
      rw (icm_blocks-cons fuel key counter ys (omega arith)) (
        All-append IsU8 (xor_bytes (take 16 ys) (a.block key counter))
          (icm_blocks a fuel key (next_counter counter) (drop 16 ys))
          (xor_bytes-IsBytes (take 16 ys) (a.block key counter) (All-take IsU8 16 ys h)
            (a.block-IsBytes key counter))
          (icm_blocks-IsBytes fuel key (next_counter counter) (drop 16 ys) (All-drop IsU8 16 ys h)))

  pub length-icm_blocks :
      (fuel : ℕ) (key counter xs : Bytes)
      → length xs ≤ fuel
      → length (icm_blocks a fuel key counter xs) ≡ length xs
  unfolding icm_blocks
  length-icm_blocks zero key counter xs h = omega arith
  length-icm_blocks (suc fuel) key counter [] h = refl
  length-icm_blocks (suc fuel) key counter (x ∷ xs) h =
      let first = xor_bytes (take 16 (x ∷ xs)) (a.block key counter) in
      let rest = icm_blocks a fuel key (next_counter counter) (drop 16 (x ∷ xs)) in
      omega (
        arith,
        ap length (icm_blocks-cons fuel key counter (x ∷ xs) (omega arith)),
        length-append first rest,
        length-xor_bytes (take 16 (x ∷ xs)) (a.block key counter),
        length-take 16 (x ∷ xs),
        length-drop 16 (x ∷ xs),
        length-icm_blocks fuel key (next_counter counter) (drop 16 (x ∷ xs))
            (omega (arith, length-drop 16 (x ∷ xs))),
      )

  -- The first block of an output, and what is behind it.
  icm_blocks-cut :
      (first rest : Bytes) (n : ℕ)
      → length first ≡ min 16 n
      → length rest ≡ n - 16
      → (take 16 (first ++ rest) ≡ first) × (drop 16 (first ++ rest) ≡ rest)
  icm_blocks-cut first [] n h k =
      let short : length first ≤ 16 = omega arith in
      (
        rw (append-nil first) (take-length 16 first short),
        rw (append-nil first) (drop_short 16 first short),
      )
    where
      drop_short : (m : ℕ) (xs : Bytes) → length xs ≤ m → drop m xs ≡ []
      drop_short zero [] e = refl
      drop_short zero (x ∷ xs) e = absurd (omega arith)
      drop_short (suc m) [] e = refl
      drop_short (suc m) (x ∷ xs) e = drop_short m xs (omega arith)
  icm_blocks-cut first (y ∷ rest) n h k =
      let full : 16 ≡ length first = omega arith in
      (take-append 16 first (y ∷ rest) full, drop-append 16 first (y ∷ rest) full)

  -- Every block is undone by the block at the same counter.
  pub icm_blocks_twice :
      (fuel : ℕ) (key counter xs : Bytes)
      → IsBytes xs
      → length xs ≤ fuel
      → icm_blocks a fuel key counter (icm_blocks a fuel key counter xs) ≡ xs
  icm_blocks_twice zero key counter [] h n =
      rw (icm_blocks-nil zero key counter) (icm_blocks-nil zero key counter)
  icm_blocks_twice zero key counter (x ∷ xs) h n = absurd (omega arith)
  icm_blocks_twice (suc fuel) key counter [] h n =
      rw (icm_blocks-nil (suc fuel) key counter) (icm_blocks-nil (suc fuel) key counter)
  icm_blocks_twice (suc fuel) key counter (x ∷ xs) h n =
      let ys = x ∷ xs in
      let ks = a.block key counter in
      let first = xor_bytes (take 16 ys) ks in
      let rest = icm_blocks a fuel key (next_counter counter) (drop 16 ys) in
      let left : length (drop 16 ys) ≤ fuel = omega (arith, length-drop 16 ys) in
      let first_size : length first ≡ min 16 (length ys) =
        length-xor_bytes (take 16 ys) ks ∙ length-take 16 ys in
      let rest_size : length rest ≡ length ys - 16 =
        length-icm_blocks fuel key (next_counter counter) (drop 16 ys) left ∙ length-drop 16 ys in
      let (front, back) = icm_blocks-cut first rest (length ys) first_size rest_size in
      let some_bytes : 0 < length (first ++ rest) =
        omega (arith, length-append first rest, first_size) in
      rw (icm_blocks-cons fuel key counter ys (omega arith)) (
        icm_blocks-cons fuel key counter (first ++ rest) some_bytes
        ∙ ap₂ ◌++◌
            (ap (λ zs. xor_bytes zs ks) front
              ∙ xor_bytes_twice (take 16 ys) ks (All-take IsU8 16 ys h)
                  (a.block-IsBytes key counter))
            (ap (λ zs. icm_blocks a fuel key (next_counter counter) zs) back
              ∙ icm_blocks_twice fuel key (next_counter counter) (drop 16 ys)
                  (All-drop IsU8 16 ys h) left)
        ∙ take-append-drop 16 ys)
