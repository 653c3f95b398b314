-- ===== src/Srtp/Crypto.antt =====
-- The ciphers and MACs that the srtp package takes from Go's standard library, as a parameter:
-- AES-CTR (crypto/aes, crypto/cipher), HMAC-SHA1 (crypto/hmac), and HKDF-SHA256 as util/hkdf.go
-- calls it (crypto/hkdf). The laws are what their documentation says of sizes and errors.
use meowcaller.Base.{
  ℕ, suc, ◌≤◌, bit_xor, ◌≡◌, refl, ap, Bool, true, Option, some, [], ◌∷◌, length, Bytes, IsU8,
  IsBytes,
}
use mathlib.Core.Path.{ap₂}
use meowcaller.Base.Bits.{xor_twice, xor-IsByte}

pub record Crypto : Type 0 where
  -- `aes.NewCipher(key)` returns no error.
  pub accepts : Bytes → Bool
  pub accepts_16 : (key : Bytes) → length key ≡ 16 → accepts key ≡ true
  -- Byte `i` of the keystream of `cipher.NewCTR` for a key and an initial counter block.
  pub keystream : Bytes → Bytes → ℕ → ℕ
  pub keystream-IsU8 : (key iv : Bytes) (i : ℕ) → IsU8 (keystream key iv i)
  -- `hmac.New(sha1.New, key)`, written to and summed.
  pub hmac_sha1 : Bytes → Bytes → Bytes
  pub length-hmac_sha1 : (key message : Bytes) → length (hmac_sha1 key message) ≡ 20
  -- `hkdf.Key(sha256.New, ikm, salt, info, length)`, in the order salt, ikm, info, length.
  pub hkdf_sha256 : Bytes → Bytes → Bytes → ℕ → Option Bytes
  pub length-hkdf_sha256 :
      (salt ikm info : Bytes) (n : ℕ)
      → n ≤ 8160
      → (okm : Bytes) × (hkdf_sha256 salt ikm info n ≡ some okm) × (length okm ≡ n)

-- `XORKeyStream`, from byte `i` of the keystream on.
unfoldable pub xor_stream : (ℕ → ℕ) → ℕ → Bytes → Bytes
xor_stream ks i [] = []
xor_stream ks i (b ∷ bs) = bit_xor b (ks i) ∷ xor_stream ks (suc i) bs

pub length-xor_stream : (ks : ℕ → ℕ) (i : ℕ) (xs : Bytes) → length (xor_stream ks i xs) ≡ length xs
unfolding xor_stream
length-xor_stream ks i [] = refl
length-xor_stream ks i (b ∷ bs) = ap suc (length-xor_stream ks (suc i) bs)

module _ (ks : ℕ → ℕ) (ks-IsU8 : (i : ℕ) → IsU8 (ks i)) where
  -- The cipher undoes itself.
  pub xor_stream_twice :
      (i : ℕ) (xs : Bytes) → IsBytes xs → xor_stream ks i (xor_stream ks i xs) ≡ xs
  unfolding xor_stream
  xor_stream_twice i [] h = refl
  xor_stream_twice i (b ∷ bs) (hb, h) =
      ap₂ ◌∷◌ (xor_twice b (ks i) hb (ks-IsU8 i)) (xor_stream_twice (suc i) bs h)

  pub xor_stream-IsBytes : (i : ℕ) (xs : Bytes) → IsBytes xs → IsBytes (xor_stream ks i xs)
  unfolding xor_stream
  xor_stream-IsBytes i [] h = tt
  xor_stream-IsBytes i (b ∷ bs) (hb, h) =
      (xor-IsByte b (ks i) hb (ks-IsU8 i), xor_stream-IsBytes (suc i) bs h)
