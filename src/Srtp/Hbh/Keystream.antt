-- ===== src/Srtp/Hbh/Keystream.antt =====
-- The block loop of `aesICMCrypt` as a stream cipher.
use mathlib.Core.Path.{ap₂}
use meowcaller.Srtp.Hbh.Icm.{icm_blocks-cons}
use meowcaller.Base.{
  Bool-cases, ltb, inl, inr, ℕ, zero, suc, ◌+◌, ◌*◌, ◌/◌, ◌%◌, ◌≤◌, ◌<◌, ◌≡◌, refl, ap, sym, ◌∙◌,
  some, [], ◌∷◌, ◌++◌, arith, length, take, drop, length-take, length-drop, take-append,
  drop-append, take-length, take-append-drop, Bytes, IsBytes, byte_at, slice,
}
use meowcaller.Srtp.Crypto.{xor_stream}
use meowcaller.Srtp.Hbh.{
  Aes, LibsrtpSessionKeys, xor_bytes, next_counter, icm_blocks, aes_icm_key30, aes_icm_crypt,
  crypt_rtp_payload,
}
use meowcaller.Srtp.Hbh.Counters.{relay_counter, nonce-relay_counter, next-relay_counter}

xor_stream-append :
    (ks : ℕ → ℕ) (i : ℕ) (xs ys : Bytes)
    → xor_stream ks i (xs ++ ys) ≡ xor_stream ks i xs ++ xor_stream ks (i + length xs) ys
unfolding xor_stream
xor_stream-append ks i [] ys = ground arith
xor_stream-append ks i (x ∷ xs) ys = ground (arith, xor_stream-append ks (suc i) xs ys)

drop-byte : (n : ℕ) (ys : Bytes) → n < length ys → drop n ys ≡ byte_at ys n ∷ drop (suc n) ys
drop-byte n [] h = absurd (omega arith)
drop-byte zero (y ∷ ys) h = refl
drop-byte (suc n) (y ∷ ys) h = drop-byte n ys (omega arith)

nothing_left : (xs : Bytes) → length xs ≡ 0 → xs ≡ []
nothing_left [] h = refl
nothing_left (x ∷ xs) h = absurd (omega arith)

-- What is behind the first block starts at the next one, or is empty.
rest_offset :
    (ks : ℕ → ℕ) (j : ℕ) (xs : Bytes)
    → xor_stream ks (16 * suc j) (drop 16 xs)
      ≡ xor_stream ks (16 * j + length (take 16 xs)) (drop 16 xs)
unfolding xor_stream
rest_offset ks j xs = elim (Bool-cases (ltb (length xs) 16)) [
  | inl short ↦ rw (nothing_left (drop 16 xs) (ground (arith, length-drop 16 xs, short))) refl
  | inr full ↦
      ap (λ (n : ℕ). xor_stream ks n (drop 16 xs)) (ground (arith, length-take 16 xs, full))
]

module _ (a : Aes) (key : Bytes) (counter : ℕ → Bytes) where
  -- Byte `i` of the blocks at the counters in turn.
  abbrev pub block_byte : ℕ → ℕ
  block_byte i = byte_at (a.block key (counter (i / 16))) (i % 16)

  xor_bytes-xor_stream :
      (n j : ℕ) (xs : Bytes)
      → n + length xs ≤ 16
      → xor_bytes xs (drop n (a.block key (counter j))) ≡ xor_stream block_byte (16 * j + n) xs
  unfolding xor_bytes xor_stream
  xor_bytes-xor_stream n j [] h = refl
  xor_bytes-xor_stream n j (x ∷ xs) h =
      let block = a.block key (counter j) in
      let more : n < length block = omega (arith, a.length-block key (counter j)) in
      let block_no : (16 * j + n) / 16 ≡ j = omega arith in
      let place : (16 * j + n) % 16 ≡ n = omega arith in
      let on : 16 * j + suc n ≡ suc (16 * j + n) = omega arith in
      rw
        (
          drop-byte n block more,
          xor_bytes-xor_stream (suc n) j xs (omega arith),
          block_no,
          place,
          on,
        )
        refl

  module _ (next : (j : ℕ) → next_counter (counter j) ≡ counter (suc j)) where
    pub icm_blocks-xor_stream :
        (fuel j : ℕ) (xs : Bytes)
        → length xs ≤ fuel
        → icm_blocks a fuel key (counter j) xs ≡ xor_stream block_byte (16 * j) xs
    unfolding icm_blocks xor_stream
    icm_blocks-xor_stream zero j [] h = refl
    icm_blocks-xor_stream zero j (x ∷ xs) h = absurd (omega arith)
    icm_blocks-xor_stream (suc fuel) j [] h = refl
    icm_blocks-xor_stream (suc fuel) j (x ∷ xs) h =
        let ys = x ∷ xs in
        let rest = drop 16 ys in
        let left : length rest ≤ fuel = omega (arith, length-drop 16 ys) in
        let first : xor_bytes (take 16 ys) (a.block key (counter j))
            ≡ xor_stream block_byte (16 * j) (take 16 ys) =
          xor_bytes-xor_stream 0 j (take 16 ys) (omega (arith, length-take 16 ys))
          ∙ ap (λ (n : ℕ). xor_stream block_byte n (take 16 ys)) (omega arith) in
        let others : icm_blocks a fuel key (next_counter (counter j)) rest
            ≡ xor_stream block_byte (16 * j + length (take 16 ys)) rest =
          ap (λ (c : Bytes). icm_blocks a fuel key c rest) (next j)
          ∙ icm_blocks-xor_stream fuel (suc j) rest left
          ∙ rest_offset block_byte j ys in
        icm_blocks-cons a fuel key (counter j) ys (omega arith)
        ∙ ap₂ ◌++◌ first others
        ∙ sym (xor_stream-append block_byte (16 * j) (take 16 ys) rest)
        ∙ ap (xor_stream block_byte (16 * j)) (take-append-drop 16 ys)

-- A session's keystream for one packet.
abbrev pub relay_byte : Aes → LibsrtpSessionKeys → ℕ → ℕ → ℕ → ℕ
relay_byte a session ssrc index =
    block_byte a session.session_key (relay_counter session.session_salt ssrc index)

key30_parts :
    (key salt : Bytes)
    → length key ≡ 16
    → length salt ≡ 14
    → (take 16 (aes_icm_key30 key salt) ≡ key) × (slice 16 30 (aes_icm_key30 key salt) ≡ salt)
unfolding aes_icm_key30
key30_parts key salt h k =
    rw (take-length 16 key (omega arith), take-length 14 salt (omega arith))
      (
        take-append 16 key salt (omega arith),
        ap (take 14) (drop-append 16 key salt (omega arith)) ∙ take-length 14 salt (omega arith),
      )

pub crypt_rtp_payload-xor_stream :
    (a : Aes) (session : LibsrtpSessionKeys) (ssrc index : ℕ) (payload : Bytes)
    → length session.session_key ≡ 16
    → length session.session_salt ≡ 14
    → IsBytes session.session_salt
    → crypt_rtp_payload a session ssrc index payload
      ≡ some (xor_stream (relay_byte a session ssrc index) 0 payload)
unfolding crypt_rtp_payload aes_icm_crypt
crypt_rtp_payload-xor_stream a session ssrc index payload h k salt-IsBytes =
    let key = session.session_key in
    let salt = session.session_salt in
    let (front, back) = key30_parts key salt h k in
    rw (front, back, a.accepts_key_16 key h, nonce-relay_counter salt ssrc index salt-IsBytes k)
      (ap some (
        icm_blocks-xor_stream a key (relay_counter salt ssrc index)
          (next-relay_counter salt ssrc index salt-IsBytes k) (length payload) 0 payload
          (omega arith)))
