-- ===== src/Srtp/E2e/Crypt.antt =====
-- Derived keys, and the cipher under them.
use meowcaller.Base.{
  ℕ, ◌≤◌, ◌≡◌, ap, ◌∙◌, false, some, [], ◌∷◌, ◌++◌, arith, ltb, length, take, replicate,
  length-take, length-replicate, Bytes, IsBytes, slice,
}
use meowcaller.Srtp.Crypto.{
  Crypto, xor_stream, xor_stream_twice, xor_stream-IsBytes, length-xor_stream,
}
use meowcaller.Srtp.E2e.{
  E2eSrtpKeys, build_e2e_rtp_iv, aes_cm_kdf, derive_session_keys_from_master_labels,
  derive_e2e_keys, crypt_payload, xor_onto, derive_labels,
}

module _ (c : Crypto) where
  -- Keys as the derivation makes them.
  pub record IsKeys (keys : E2eSrtpKeys) : Type 0 where
    pub length-cipher_key : length keys.cipher_key ≡ 16
    pub length-salt : length keys.salt ≡ 14
    pub length-auth_key : length keys.auth_key ≡ 20

  aes_cm_kdf-total :
      (key salt : Bytes) (label n : ℕ)
      → length key ≡ 16
      → (out : Bytes) × (aes_cm_kdf c key salt label n ≡ some out) × (length out ≡ n)
  unfolding aes_cm_kdf
  aes_cm_kdf-total key salt label n h =
      let ks = c.keystream key (xor_onto 7 (label ∷ []) (take 14 salt ++ (0 ∷ 0 ∷ []))) in
      (
        xor_stream ks 0 (replicate n 0),
        rw (c.accepts_16 key h),
        length-xor_stream ks 0 (replicate n 0) ∙ length-replicate n 0,
      )

  from_master-total :
      (master : Bytes) (a b d : ℕ)
      → length master ≡ 46
      → (keys : E2eSrtpKeys) × (derive_session_keys_from_master_labels c master a b d ≡ some keys)
        × IsKeys keys
  unfolding derive_session_keys_from_master_labels
  from_master-total master a b d h =
      let key = slice 0 16 master in
      let salt = slice 16 30 master in
      let short : length key ≡ 16 = omega (arith, length-take 16 master) in
      let (x, ex, lx) = aes_cm_kdf-total key salt a 16 short in
      let (y, ey, ly) = aes_cm_kdf-total key salt b 20 short in
      let (z, ez, lz) = aes_cm_kdf-total key salt d 14 short in
      (
        record { cipher_key = x; salt = z; auth_key = y },
        rw (ex, ey, ez),
        record { length-cipher_key = lx; length-salt = lz; length-auth_key = ly },
      )

  pub derive_labels-IsKeys :
      (a b d : ℕ) (call_key lid : Bytes)
      → 32 ≤ length call_key
      → (keys : E2eSrtpKeys) × (derive_labels c a b d call_key lid ≡ some keys) × IsKeys keys
  unfolding derive_labels
  derive_labels-IsKeys a b d call_key lid h =
      let (master, found, size) =
        c.length-hkdf_sha256 (replicate 32 0) (take 32 call_key) lid 46 (omega arith) in
      let (keys, made, valid) = from_master-total master a b d size in
      let long : ltb (length call_key) 32 ≡ false = ground arith in
      (keys, rw (long, found, made), valid)

  -- DeriveE2eKeys accepts a call key of at least 32 bytes, and returns a 16-byte cipher key, a
  -- 14-byte salt and a 20-byte authentication key.
  pub derive_e2e_keys-IsKeys :
      (call_key lid : Bytes)
      → 32 ≤ length call_key
      → (keys : E2eSrtpKeys) × (derive_e2e_keys c call_key lid ≡ some keys) × IsKeys keys
  unfolding derive_e2e_keys
  derive_e2e_keys-IsKeys call_key lid h =
      unfold derive_labels in derive_labels-IsKeys 0 1 2 call_key lid h

  -- With keys of the derived sizes CryptPayload does not fail on a byte string, keeps its length,
  -- and undoes itself under the same SSRC, sequence number and rollover counter.
  pub crypt-crypt :
      (keys : E2eSrtpKeys) (ssrc seq roc : ℕ) (payload : Bytes)
      → IsKeys keys
      → IsBytes payload
      → (out : Bytes) × (crypt_payload c keys ssrc seq roc payload ≡ some out)
        × (crypt_payload c keys ssrc seq roc out ≡ some payload)
        × (length out ≡ length payload)
        × IsBytes out
  unfolding crypt_payload
  crypt-crypt keys ssrc seq roc payload k h =
      let iv = build_e2e_rtp_iv keys.salt ssrc roc seq in
      let ks = c.keystream keys.cipher_key iv in
      let byte = c.keystream-IsU8 keys.cipher_key iv in
      let ok = c.accepts_16 keys.cipher_key k.length-cipher_key in
      (
        xor_stream ks 0 payload,
        rw ok,
        rw ok (ap some (xor_stream_twice ks byte 0 payload h)),
        length-xor_stream ks 0 payload,
        xor_stream-IsBytes ks byte 0 payload h,
      )
