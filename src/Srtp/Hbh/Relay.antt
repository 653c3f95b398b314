-- ===== src/Srtp/Hbh/Relay.antt =====
-- From the hop-by-hop key to a payload and back.
use meowcaller.Base.{
  ℕ, zero, suc, ◌≡◌, refl, ap, ◌∙◌, true, false, not, some, [], ◌∷◌, ◌++◌, arith, ◌==◌, length,
  take, replicate, length-take, length-replicate, take-append, take-length, Bytes, IsBytes, slice,
}
use meowcaller.Srtp.Crypto.{Crypto, xor_stream}
use meowcaller.Srtp.Hbh.{
  Aes, SrtpKeyingMaterial, LibsrtpSessionKeys, xor_bytes, icm_blocks, aes_icm_key30, aes_icm_crypt,
  derive_session_bytes, expand_libsrtp_session_keys, build_rtp_icm_nonce, uplink_salt_label,
  uplink_key_label, crypt_rtp_payload, derive_hbh_srtp_key_with_labels, derive_hbh_srtp_key_uplink,
  keying_from_hbh_key_uplink, keying_from_crypto_key,
}
use meowcaller.Srtp.Hbh.Icm.{length-icm_blocks, icm_blocks_twice, icm_blocks-IsBytes}
use meowcaller.Srtp.Hbh.Keystream.{relay_byte, crypt_rtp_payload-xor_stream}

module _ (a : Aes) where
  -- Session keys of the right sizes, with a salt of bytes.
  pub record IsSession (session : LibsrtpSessionKeys) : Type 0 where
    pub length-session_key : length session.session_key ≡ 16
    pub length-session_salt : length session.session_salt ≡ 14
    pub length-session_auth_key : length session.session_auth_key ≡ 20
    pub session_salt-IsBytes : IsBytes session.session_salt

  key30_key : (key salt : Bytes) → length key ≡ 16 → take 16 (aes_icm_key30 key salt) ≡ key
  unfolding aes_icm_key30
  key30_key key salt h =
      let all : take 16 key ≡ key = take-length 16 key (omega (arith, h)) in
      take-append 16 (take 16 key) (take 14 salt) (omega (arith, h, length-take 16 key)) ∙ all

  aes_icm_crypt-total :
      (key salt iv xs : Bytes)
      → length key ≡ 16
      → IsBytes xs
      → (out : Bytes) × (aes_icm_crypt a (aes_icm_key30 key salt) iv xs ≡ some out)
        × (aes_icm_crypt a (aes_icm_key30 key salt) iv out ≡ some xs)
        × (length out ≡ length xs)
        × IsBytes out
  unfolding aes_icm_crypt
  aes_icm_crypt-total key salt iv xs h b =
      let key30 = aes_icm_key30 key salt in
      let counter = xor_bytes (slice 16 30 key30 ++ (0 ∷ 0 ∷ [])) iv in
      let accepted : a.accepts_key (take 16 key30) ≡ true =
        a.accepts_key_16 (take 16 key30) (ap length (key30_key key salt h) ∙ h) in
      let out = icm_blocks a (length xs) (take 16 key30) counter xs in
      let size : length out ≡ length xs =
        length-icm_blocks a (length xs) (take 16 key30) counter xs (omega arith) in
      (
        out,
        rw accepted refl,
        rw (accepted, size)
            (ap some (icm_blocks_twice a (length xs) (take 16 key30) counter xs b (omega arith))),
        size,
        icm_blocks-IsBytes a (length xs) (take 16 key30) counter xs b,
      )

  zeros-IsBytes : (n : ℕ) → IsBytes (replicate n 0)
  zeros-IsBytes zero = tt
  zeros-IsBytes (suc n) = (omega arith, zeros-IsBytes n)

  derive_session_bytes-total :
      (key salt : Bytes) (label n : ℕ)
      → length key ≡ 16
      → (out : Bytes) × (derive_session_bytes a key salt label n ≡ some out)
        × (length out ≡ n)
        × IsBytes out
  unfolding derive_session_bytes
  derive_session_bytes-total key salt label n h =
      let (out, made, _, size, bytes) =
        aes_icm_crypt-total key salt (replicate 7 0 ++ (label ∷ replicate 8 0)) (replicate n 0) h
          (zeros-IsBytes n) in
      (out, made, size ∙ length-replicate {A = ℕ} n 0, bytes)

  expand-IsSession :
      (keying : SrtpKeyingMaterial)
      → length keying.master_key ≡ 16
      → (session : LibsrtpSessionKeys) × (expand_libsrtp_session_keys a keying ≡ some session)
        × IsSession session
  unfolding expand_libsrtp_session_keys
  expand-IsSession keying h =
      let (k, ek, sk, _) = derive_session_bytes-total keying.master_key keying.master_salt 0 16 h in
      let (s, es, ss, bs) =
        derive_session_bytes-total keying.master_key keying.master_salt 2 14 h in
      let (t, et, st, _) = derive_session_bytes-total keying.master_key keying.master_salt 1 20 h in
      (
        record { session_key = k; session_salt = s; session_auth_key = t },
        rw (ek, es, et) refl,
        record {
          length-session_key = sk;
          length-session_salt = ss;
          length-session_auth_key = st;
          session_salt-IsBytes = bs;
        },
      )

  crypt_rtp_payload-undone :
      (session : LibsrtpSessionKeys) (ssrc index : ℕ) (payload : Bytes)
      → IsSession session
      → IsBytes payload
      → (out : Bytes) × (crypt_rtp_payload a session ssrc index payload ≡ some out)
        × (crypt_rtp_payload a session ssrc index out ≡ some payload)
        × (length out ≡ length payload)
        × IsBytes out
  unfolding crypt_rtp_payload
  crypt_rtp_payload-undone session ssrc index payload v b =
      aes_icm_crypt-total session.session_key session.session_salt (build_rtp_icm_nonce ssrc index)
        payload v.length-session_key b

  crypt_rtp_payload-total :
      (session : LibsrtpSessionKeys) (ssrc index : ℕ) (payload : Bytes)
      → IsSession session
      → IsBytes payload
      → (out : Bytes) × (crypt_rtp_payload a session ssrc index payload ≡ some out)
        × (crypt_rtp_payload a session ssrc index out ≡ some payload)
        × (length out ≡ length payload)
        × (out ≡ xor_stream (relay_byte a session ssrc index) 0 payload)
  crypt_rtp_payload-total session ssrc index payload v b =
      let (out, made, back, size, _) = crypt_rtp_payload-undone session ssrc index payload v b in
      let stream =
        crypt_rtp_payload-xor_stream a session ssrc index payload v.length-session_key
          v.length-session_salt v.session_salt-IsBytes in
      (out, made, back, size, ground (arith, made, stream))

  keying_uplink :
      (c : Crypto) (hbh_key : Bytes)
      → length hbh_key ≡ 30
      → (keying : SrtpKeyingMaterial) × (keying_from_hbh_key_uplink c hbh_key ≡ some keying)
        × (length keying.master_key ≡ 16)
  unfolding keying_from_hbh_key_uplink derive_hbh_srtp_key_uplink derive_hbh_srtp_key_with_labels
      keying_from_crypto_key
  keying_uplink c hbh_key h =
      let (salt, made_salt, _) =
        c.length-hkdf_sha256 (replicate 32 0) (slice 16 30 hbh_key) uplink_salt_label 32
          (omega arith) in
      let (key, made_key, size) =
        c.length-hkdf_sha256 salt (slice 0 16 hbh_key) uplink_key_label 30 (omega arith) in
      let exact : not (length hbh_key == 30) ≡ false = ground (arith, h) in
      (
        record { master_key = slice 0 16 key; master_salt = slice 16 30 key },
        rw (exact, made_salt, made_key) refl,
        omega (arith, size, length-take 16 key),
      )

  -- From a 30-byte hop-by-hop key the uplink keying and the session keys are derived without an
  -- error, and CryptRtpPayload under them does not fail on a byte string, keeps its length,
  -- undoes itself under the same SSRC and packet index, and is the XOR with the AES blocks of the
  -- session key at the counters (salt * 2^16) XOR ((SSRC mod 2^32) * 2^64) XOR ((index mod 2^48)
  -- * 2^16 + block number mod 2^16), 16 bytes to a block.
  pub hbh_uplink :
      (c : Crypto) (hbh_key : Bytes) (ssrc index : ℕ) (payload : Bytes)
      → length hbh_key ≡ 30
      → IsBytes payload
      → (keying : SrtpKeyingMaterial) × (session : LibsrtpSessionKeys) × (out : Bytes)
        × (keying_from_hbh_key_uplink c hbh_key ≡ some keying)
        × (expand_libsrtp_session_keys a keying ≡ some session)
        × (crypt_rtp_payload a session ssrc index payload ≡ some out)
        × (crypt_rtp_payload a session ssrc index out ≡ some payload)
        × (length out ≡ length payload)
        × (out ≡ xor_stream (relay_byte a session ssrc index) 0 payload)
  hbh_uplink c hbh_key ssrc index payload h b =
      let (keying, ek, sk) = keying_uplink c hbh_key h in
      let (session, es, vs) = expand-IsSession keying sk in
      let (out, there, back, size, stream) =
        crypt_rtp_payload-total session ssrc index payload vs b in
      (keying, session, out, ek, es, there, back, size, stream)
