-- ===== src/Srtp/Hbh/Counters.antt =====
-- The counters of the cipher as numbers.
use meowcaller.Base.{
  ℕ, zero, suc, ◌+◌, ◌*◌, ◌/◌, ◌%◌, ◌^◌, ◌≤◌, ◌<◌, ◌≡◌, refl, ap, sym, ◌∙◌, bit_xor, Bool, true,
  ◌==◌, ==_iff, [], ◌∷◌, ◌++◌, arith, length, replicate, length-append, drop-append, get_or-drop,
  All-append, Bytes, IsU8, IsBytes, u8, be16, be32, be32-IsBytes, byte_at,
}
use meowcaller.Base.Bits.{passes, passes_at}
use meowcaller.Srtp.E2e.{xor_onto}
use meowcaller.Srtp.E2e.Counter.{
  digits, xor_each, xor_onto-append, xor_onto-xor_each, length-xor_onto, xor_onto-IsBytes,
}
use meowcaller.Srtp.Hbh.{xor_bytes, bump, next_counter, build_rtp_icm_nonce}

-- The counter of block `j`: the salt, the SSRC and the 48-bit packet index in their places, and
-- `j` on the last two bytes.
unfoldable pub relay_counter : Bytes → ℕ → ℕ → ℕ → Bytes
relay_counter salt ssrc index j =
    xor_each (xor_each (salt ++ (0 ∷ 0 ∷ [])) (digits 16 (ssrc % 2 ^ 32 * 2 ^ 64)))
      (digits 16 (index % 2 ^ 48 * 2 ^ 16 + j % 2 ^ 16))

abbrev index_bytes : ℕ → Bytes
index_bytes index = be16 (index / 2 ^ 32 % 2 ^ 16) ++ be32 (index % 2 ^ 32)

abbrev head : Bytes → ℕ → ℕ → Bytes
head salt ssrc index = xor_onto 8 (index_bytes index) (xor_onto 4 (be32 ssrc) salt)

ssrc_digits :
    (ssrc : ℕ) → digits 16 (ssrc % 2 ^ 32 * 2 ^ 64) ≡ replicate 4 0 ++ (be32 ssrc ++ replicate 8 0)
ssrc_digits ssrc = ground arith

number_digits :
    (i j : ℕ)
    → i < 2 ^ 48
    → j < 2 ^ 16
    → digits 16 (i * 2 ^ 16 + j) ≡ replicate 8 0 ++ ((index_bytes i ++ be16 j) ++ replicate 0 0)
number_digits i j h k = ground arith

nonce_digits :
    (ssrc index : ℕ)
    → build_rtp_icm_nonce ssrc index
      ≡ replicate 4 0 ++ ((be32 ssrc ++ index_bytes index) ++ replicate 2 0)
unfolding build_rtp_icm_nonce
nonce_digits ssrc index = ground arith

xor_onto-front :
    (n : ℕ) (mask xs ys : Bytes)
    → n + length mask ≤ length xs
    → xor_onto n mask (xs ++ ys) ≡ xor_onto n mask xs ++ ys
unfolding xor_onto
xor_onto-front zero [] [] [] h = refl
xor_onto-front zero [] [] (y ∷ ys) h = refl
xor_onto-front zero (m ∷ mask) [] ys h = absurd (omega arith)
xor_onto-front (suc n) mask [] ys h = absurd (omega arith)
xor_onto-front zero [] (x ∷ xs) ys h = refl
xor_onto-front zero (m ∷ mask) (x ∷ xs) ys h =
    ap (◌∷◌ (bit_xor x m)) (xor_onto-front zero mask xs ys (omega arith))
xor_onto-front (suc n) mask (x ∷ xs) ys h = ap (◌∷◌ x) (xor_onto-front n mask xs ys (omega arith))

xor_onto-back :
    (n : ℕ) (mask xs ys : Bytes)
    → n ≡ length xs
    → xor_onto n mask (xs ++ ys) ≡ xs ++ xor_onto 0 mask ys
unfolding xor_onto
xor_onto-back zero mask [] ys h = refl
xor_onto-back zero mask (x ∷ xs) ys h = absurd (omega arith)
xor_onto-back (suc n) mask [] ys h = absurd (omega arith)
xor_onto-back (suc n) mask (x ∷ xs) ys h = ap (◌∷◌ x) (xor_onto-back n mask xs ys (omega arith))

abbrev kept : ℕ → Bool
kept b = bit_xor 0 b == b

all_kept : passes kept 256 ≡ true
unfolding passes
all_kept = refl

zero_xor : (b : ℕ) → IsU8 b → bit_xor 0 b ≡ b
zero_xor b h = (==_iff _ b).0 (passes_at kept 256 b h all_kept)

on_zeros : (j : ℕ) → xor_onto 0 (be16 j) (0 ∷ 0 ∷ []) ≡ be16 j
unfolding xor_onto
on_zeros j =
    ground (arith, zero_xor (j / 256 % 256) (omega arith), zero_xor (j % 256) (omega arith))

xor_bytes-xor_each : (xs ys : Bytes) → length xs ≡ length ys → xor_bytes xs ys ≡ xor_each xs ys
unfolding xor_bytes
xor_bytes-xor_each [] ys h = refl
xor_bytes-xor_each (x ∷ xs) [] h = absurd (omega arith)
xor_bytes-xor_each (x ∷ xs) (y ∷ ys) h =
    ap (◌∷◌ (bit_xor x y)) (xor_bytes-xor_each xs ys (omega arith))

bump-append : (n i : ℕ) (xs ys : Bytes) → n ≡ length xs → bump (n + i) (xs ++ ys) ≡ xs ++ bump i ys
unfolding bump
bump-append zero i [] ys h = ground arith
bump-append zero i (x ∷ xs) ys h = absurd (omega arith)
bump-append (suc n) i [] ys h = absurd (omega arith)
bump-append (suc n) i (x ∷ xs) ys h = ground (arith, bump-append n i xs ys)

next_counter-be16 :
    (xs : Bytes) (j : ℕ) → length xs ≡ 14 → next_counter (xs ++ be16 j) ≡ xs ++ be16 (suc j)
unfolding next_counter bump
next_counter-be16 xs j h =
    let low = u8 (j % 256 + 1) in
    let read : byte_at (xs ++ (j / 256 % 256 ∷ low ∷ [])) 15 ≡ low =
      get_or-drop 14 1 (xs ++ (j / 256 % 256 ∷ low ∷ [])) 0
      ∙ ap (λ (ys : Bytes). byte_at ys 1)
          (drop-append 14 xs (j / 256 % 256 ∷ low ∷ []) (omega arith)) in
    rw
      (
        bump-append 14 1 xs (be16 j) (omega arith),
        read,
        bump-append 14 0 xs (j / 256 % 256 ∷ low ∷ []) (omega arith),
      )
      (ground arith)

module _ (salt : Bytes) (ssrc index : ℕ) (salt-IsBytes : IsBytes salt)
    (size : length salt ≡ 14) where
  relay_counter-head :
      (j : ℕ)
      → relay_counter salt ssrc index j ≡ head salt ssrc (index % 2 ^ 48) ++ be16 (j % 2 ^ 16)
  unfolding relay_counter
  relay_counter-head j =
      let iv = salt ++ (0 ∷ 0 ∷ []) in
      let i = index % 2 ^ 48 in
      let low = j % 2 ^ 16 in
      let first = xor_onto 4 (be32 ssrc) iv in
      let iv-IsBytes = All-append IsU8 salt (0 ∷ 0 ∷ []) salt-IsBytes (omega arith) in
      let iv_size : length iv ≡ 16 = omega (arith, length-append salt (0 ∷ 0 ∷ [])) in
      let first_size : length first ≡ 16 = length-xor_onto 4 (be32 ssrc) iv ∙ iv_size in
      let both : relay_counter salt ssrc index j ≡ xor_onto 8 (index_bytes i ++ be16 low) first =
        rw
          (
            ssrc_digits ssrc,
            number_digits i low (omega arith) (omega arith),
            sym (xor_onto-xor_each 4 8 (be32 ssrc) iv iv-IsBytes (omega arith)),
            sym (
                xor_onto-xor_each 8 0 (index_bytes i ++ be16 low) first
                  (xor_onto-IsBytes 4 (be32 ssrc) iv (be32-IsBytes ssrc) iv-IsBytes) (omega arith)),
          )
          refl in
      both
      ∙ xor_onto-append 8 (index_bytes i) (be16 low) first
      ∙ rw
          (
            xor_onto-front 4 (be32 ssrc) salt (0 ∷ 0 ∷ []) (omega arith),
            xor_onto-front 8 (index_bytes i) (xor_onto 4 (be32 ssrc) salt) (0 ∷ 0 ∷ [])
                (omega (arith, length-xor_onto 4 (be32 ssrc) salt)),
            xor_onto-back 14 (be16 low) (head salt ssrc i) (0 ∷ 0 ∷ []) (
                omega (
                  arith,
                  length-xor_onto 4 (be32 ssrc) salt,
                  length-xor_onto 8 (index_bytes i) (xor_onto 4 (be32 ssrc) salt),
                )),
            on_zeros low,
          )
          refl

  -- The counter that the cipher starts with.
  nonce-head :
      xor_bytes (salt ++ (0 ∷ 0 ∷ [])) (build_rtp_icm_nonce ssrc index)
      ≡ head salt ssrc (index % 2 ^ 48) ++ be16 0
  nonce-head =
      let iv = salt ++ (0 ∷ 0 ∷ []) in
      let iv-IsBytes = All-append IsU8 salt (0 ∷ 0 ∷ []) salt-IsBytes (omega arith) in
      let iv_size : length iv ≡ 16 = omega (arith, length-append salt (0 ∷ 0 ∷ [])) in
      let mask = be32 ssrc ++ index_bytes index in
      let cut : index_bytes index ≡ index_bytes (index % 2 ^ 48) = ground arith in
      let whole : length (build_rtp_icm_nonce ssrc index) ≡ 16 =
        ap length (nonce_digits ssrc index) in
      xor_bytes-xor_each iv (build_rtp_icm_nonce ssrc index) (iv_size ∙ sym whole)
      ∙ rw (nonce_digits ssrc index, sym (xor_onto-xor_each 4 2 mask iv iv-IsBytes (omega arith)))
          refl
      ∙ xor_onto-append 4 (be32 ssrc) (index_bytes index) iv
      ∙ rw
          (
            xor_onto-front 4 (be32 ssrc) salt (0 ∷ 0 ∷ []) (omega arith),
            xor_onto-front 8 (index_bytes index) (xor_onto 4 (be32 ssrc) salt) (0 ∷ 0 ∷ [])
                (omega (arith, length-xor_onto 4 (be32 ssrc) salt)),
            cut,
          )
          refl

  pub nonce-relay_counter :
      xor_bytes (salt ++ (0 ∷ 0 ∷ [])) (build_rtp_icm_nonce ssrc index)
      ≡ relay_counter salt ssrc index 0
  nonce-relay_counter = nonce-head ∙ sym (relay_counter-head 0)

  pub next-relay_counter :
      (j : ℕ)
      → next_counter (relay_counter salt ssrc index j) ≡ relay_counter salt ssrc index (suc j)
  next-relay_counter j =
      let front = head salt ssrc (index % 2 ^ 48) in
      let front_size : length front ≡ 14 = omega (
        arith,
        length-xor_onto 4 (be32 ssrc) salt,
        length-xor_onto 8 (index_bytes (index % 2 ^ 48)) (xor_onto 4 (be32 ssrc) salt),
      ) in
      let wrap : be16 (suc (j % 2 ^ 16)) ≡ be16 (suc j % 2 ^ 16) = ground arith in
      ap next_counter (relay_counter-head j)
      ∙ next_counter-be16 front (j % 2 ^ 16) front_size
      ∙ ap (◌++◌ front) wrap
      ∙ sym (relay_counter-head (suc j))
