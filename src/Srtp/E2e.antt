-- ===== src/Srtp/E2e.antt =====
-- The end-to-end SRTP cipher of srtp/e2e.go: key derivation, the RTP IV, payload encryption and
-- SRTCP. An error is `none`.
pub mod Iv
pub mod Crypt
pub mod Counter
pub mod Srtcp
mod Tests
use meowcaller.Base.{
  ◌>>=◌, ℕ, zero, suc, ◌+◌, ◌-◌, ◌*◌, ◌%◌, bit_xor, not, Option, none, some, [], ◌∷◌, ◌++◌, ltb,
  if◌then◌else◌, length, take, drop, replicate, bytes_equal, Bytes, u16, u64, shr, slice, be16,
  be32, read_be32,
}
use meowcaller.Srtp.Crypto.{Crypto, xor_stream}

pub record E2eSrtpKeys : Type 0 where
  pub cipher_key : Bytes
  pub salt : Bytes
  pub auth_key : Bytes

abbrev pub srtcp_auth_tag_len : ℕ
srtcp_auth_tag_len = 10

abbrev pub srtcp_trailer_len : ℕ
srtcp_trailer_len = 14

abbrev pub rtcp_header_len : ℕ
rtcp_header_len = 8

-- `iv[n+k] ^= mask[k]` for every byte of the mask.
unfoldable pub xor_onto : ℕ → Bytes → Bytes → Bytes
xor_onto n mask [] = []
xor_onto (suc n) mask (b ∷ bs) = b ∷ xor_onto n mask bs
xor_onto zero [] (b ∷ bs) = b ∷ bs
xor_onto zero (m ∷ mask) (b ∷ bs) = bit_xor b m ∷ xor_onto zero mask bs

-- `BuildE2eRtpIV`: the salt right-aligned before two zero bytes, the SSRC on bytes 4 to 7, and the
-- 48-bit packet index on bytes 8 to 13.
unfoldable pub build_e2e_rtp_iv : Bytes → ℕ → ℕ → ℕ → Bytes
unfolding xor_onto
build_e2e_rtp_iv salt ssrc roc seq =
    let iv = replicate (14 - length salt) 0 ++ (salt ++ (0 ∷ 0 ∷ [])) in
    let packet_index = u64 (roc * 0x10000 + seq) in
    let hi16 = shr packet_index 32 % 0x10000 in
    let lo32 = packet_index % 0x1_0000_0000 in xor_onto 4 (be32 ssrc ++ (be16 hi16 ++ be32 lo32)) iv

-- `0x80000000 | index` of a uint32
abbrev pub with_encrypted_flag : ℕ → ℕ
with_encrypted_flag index = 0x80000000 + index % 0x80000000

module _ (c : Crypto) where
  -- `aesCmKdf`
  unfoldable pub aes_cm_kdf : Bytes → Bytes → ℕ → ℕ → Option Bytes
  aes_cm_kdf master_key master_salt label len =
      let iv = xor_onto 7 (label ∷ []) (take 14 master_salt ++ (0 ∷ 0 ∷ [])) in
      if c.accepts master_key
      then some (xor_stream (c.keystream master_key iv) 0 (replicate len 0))
      else none

  -- `deriveSessionKeysFromMasterLabels`
  unfoldable pub derive_session_keys_from_master_labels : Bytes → ℕ → ℕ → ℕ → Option E2eSrtpKeys
  derive_session_keys_from_master_labels master cipher_label auth_label salt_label = do
    let master_key = slice 0 16 master
    let master_salt = slice 16 30 master
    cipher_key ← aes_cm_kdf master_key master_salt cipher_label 16
    auth_key ← aes_cm_kdf master_key master_salt auth_label 20
    salt ← aes_cm_kdf master_key master_salt salt_label 14
    some (record { cipher_key = cipher_key; salt = salt; auth_key = auth_key })

  -- The part that the three derivations share: 32 bytes of key material at least, HKDF with a zero
  -- salt, then the session keys.
  unfoldable pub derive_labels : ℕ → ℕ → ℕ → Bytes → Bytes → Option E2eSrtpKeys
  derive_labels cipher_label auth_label salt_label call_key participant_lid =
      if ltb (length call_key) 32 then none else (do
        master ← c.hkdf_sha256 (replicate 32 0) (take 32 call_key) participant_lid 46
        derive_session_keys_from_master_labels master cipher_label auth_label salt_label)

  -- `DeriveE2eKeys`
  unfoldable pub derive_e2e_keys : Bytes → Bytes → Option E2eSrtpKeys
  unfolding derive_labels
  derive_e2e_keys = derive_labels 0x00 0x01 0x02

  -- `DeriveE2eSrtcpKeys`
  unfoldable pub derive_e2e_srtcp_keys : Bytes → Bytes → Option E2eSrtpKeys
  unfolding derive_labels
  derive_e2e_srtcp_keys = derive_labels 0x03 0x04 0x05

  -- `DeriveE2eKeysFromRaw`
  unfoldable pub derive_e2e_keys_from_raw : Bytes → Bytes → Option E2eSrtpKeys
  unfolding derive_labels
  derive_e2e_keys_from_raw = derive_labels 0x00 0x01 0x02

  -- `CryptPayload`
  unfoldable pub crypt_payload : E2eSrtpKeys → ℕ → ℕ → ℕ → Bytes → Option Bytes
  crypt_payload keys ssrc seq roc payload =
      let iv = build_e2e_rtp_iv keys.salt ssrc roc seq in
      if c.accepts keys.cipher_key
      then some (xor_stream (c.keystream keys.cipher_key iv) 0 payload)
      else none

  -- `ProtectSrtcp`
  unfoldable pub protect_srtcp : E2eSrtpKeys → ℕ → ℕ → Bytes → Option Bytes
  protect_srtcp keys sender_ssrc index rtcp = do
    let split = if ltb rtcp_header_len (length rtcp) then rtcp_header_len else length rtcp
    body ← crypt_payload keys sender_ssrc (u16 index) (shr index 16) (drop split rtcp)
    let out = take split rtcp ++ (body ++ be32 (with_encrypted_flag index))
    some (out ++ take srtcp_auth_tag_len (c.hmac_sha1 keys.auth_key out))

  -- `UnprotectSrtcp`
  unfoldable pub unprotect_srtcp : E2eSrtpKeys → ℕ → Bytes → Option (Bytes × ℕ)
  unprotect_srtcp keys sender_ssrc packet =
      let tag_start = length packet - srtcp_auth_tag_len in
      let index_start = tag_start - 4 in
      let index = read_be32 packet index_start % 0x80000000 in
      let mac = c.hmac_sha1 keys.auth_key (take tag_start packet) in
      if ltb (length packet) (rtcp_header_len + srtcp_trailer_len)
      then none
      else if not (bytes_equal (drop tag_start packet) (take srtcp_auth_tag_len mac))
      then none
      else (do
        body ←
            crypt_payload keys sender_ssrc (u16 index) (shr index 16)
              (slice rtcp_header_len index_start packet)
        some (take rtcp_header_len packet ++ body, index))
