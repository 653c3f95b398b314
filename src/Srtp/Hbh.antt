-- ===== src/Srtp/Hbh.antt =====
-- srtp/hbh.go: the hop-by-hop keys of a relay, and the AES-ICM cipher of libsrtp whose counter carries
-- no further than two bytes. An error is `none`.
pub mod Icm
mod Counters
mod Keystream
pub mod Relay
mod Tests
use meowcaller.Base.{
  ℕ, zero, suc, ◌+◌, ◌*◌, ◌/◌, ◌%◌, bit_xor, ◌≡◌, Bool, true, not, Option, none, some, [], ◌∷◌,
  ◌++◌, leb, ◌==◌, if◌then◌else◌, ◌>>=◌, length, take, drop, replicate, Bytes, IsBytes, u8, u64,
  byte_at, slice, be32,
}
use meowcaller.Srtp.Crypto.{Crypto}

-- AES of crypto/aes as a parameter: `aes.NewCipher` takes a 16-byte key, and `Encrypt` makes 16 bytes.
pub record Aes : Type 0 where
  pub accepts_key : Bytes → Bool
  pub accepts_key_16 : (key : Bytes) → length key ≡ 16 → accepts_key key ≡ true
  pub block : Bytes → Bytes → Bytes
  pub length-block : (key input : Bytes) → length (block key input) ≡ 16
  pub block-IsBytes : (key input : Bytes) → IsBytes (block key input)

pub record SrtpKeyingMaterial : Type 0 where
  pub master_key : Bytes
  pub master_salt : Bytes

pub record LibsrtpSessionKeys : Type 0 where
  pub session_key : Bytes
  pub session_salt : Bytes
  pub session_auth_key : Bytes

-- `keyingFromCryptoKey`
unfoldable pub keying_from_crypto_key : Bytes → SrtpKeyingMaterial
keying_from_crypto_key crypto_key = record {
  master_key = slice 0 16 crypto_key;
  master_salt = slice 16 30 crypto_key;
}

abbrev pub uplink_salt_label : Bytes
uplink_salt_label =
    b'u' ∷ b'p' ∷ b'l' ∷ b'i' ∷ b'n' ∷ b'k' ∷ 0x20 ∷ b'h' ∷ b'b' ∷ b'h' ∷ 0x20 ∷ b's' ∷ b'r' ∷ b't'
    ∷ b'c' ∷ b'p' ∷ 0x20 ∷ b's' ∷ b'a' ∷ b'l' ∷ b't' ∷ []

abbrev pub uplink_key_label : Bytes
uplink_key_label =
    b'u' ∷ b'p' ∷ b'l' ∷ b'i' ∷ b'n' ∷ b'k' ∷ 0x20 ∷ b'h' ∷ b'b' ∷ b'h' ∷ 0x20 ∷ b's' ∷ b'r' ∷ b't'
    ∷ b'c' ∷ b'p' ∷ 0x20 ∷ b'k' ∷ b'e' ∷ b'y' ∷ []

abbrev downlink_salt_label : Bytes
downlink_salt_label =
    b'd' ∷ b'o' ∷ b'w' ∷ b'n' ∷ b'l' ∷ b'i' ∷ b'n' ∷ b'k' ∷ 0x20 ∷ b'h' ∷ b'b' ∷ b'h' ∷ 0x20 ∷ b's'
    ∷ b'r' ∷ b't' ∷ b'c' ∷ b'p' ∷ 0x20 ∷ b's' ∷ b'a' ∷ b'l' ∷ b't' ∷ []

abbrev downlink_key_label : Bytes
downlink_key_label =
    b'd' ∷ b'o' ∷ b'w' ∷ b'n' ∷ b'l' ∷ b'i' ∷ b'n' ∷ b'k' ∷ 0x20 ∷ b'h' ∷ b'b' ∷ b'h' ∷ 0x20 ∷ b's'
    ∷ b'r' ∷ b't' ∷ b'c' ∷ b'p' ∷ 0x20 ∷ b'k' ∷ b'e' ∷ b'y' ∷ []

module _ (c : Crypto) where
  -- `deriveHbhSrtpKeyWithLabels`
  unfoldable pub derive_hbh_srtp_key_with_labels : Bytes → Bytes → Bytes → Option Bytes
  derive_hbh_srtp_key_with_labels hbh_key salt_label key_label =
      if not (length hbh_key == 30) then none else (do
        srtcp_salt ← c.hkdf_sha256 (replicate 32 0) (slice 16 30 hbh_key) salt_label 32
        c.hkdf_sha256 srtcp_salt (slice 0 16 hbh_key) key_label 30)

  -- `DeriveHbhSrtpKeyUplink` and `DeriveHbhSrtpKeyDownlink`
  unfoldable pub derive_hbh_srtp_key_uplink : Bytes → Option Bytes
  derive_hbh_srtp_key_uplink hbh_key =
      derive_hbh_srtp_key_with_labels hbh_key uplink_salt_label uplink_key_label

  unfoldable pub derive_hbh_srtp_key_downlink : Bytes → Option Bytes
  derive_hbh_srtp_key_downlink hbh_key =
      derive_hbh_srtp_key_with_labels hbh_key downlink_salt_label downlink_key_label

  -- `KeyingFromHbhKeyUplink` and `KeyingFromHbhKeyDownlink`
  unfoldable pub keying_from_hbh_key_uplink : Bytes → Option SrtpKeyingMaterial
  keying_from_hbh_key_uplink hbh_key =
      derive_hbh_srtp_key_uplink hbh_key >>= λ k. some (keying_from_crypto_key k)

  unfoldable pub keying_from_hbh_key_downlink : Bytes → Option SrtpKeyingMaterial
  keying_from_hbh_key_downlink hbh_key =
      derive_hbh_srtp_key_downlink hbh_key >>= λ k. some (keying_from_crypto_key k)

-- `aesICMKey30`
unfoldable pub aes_icm_key30 : Bytes → Bytes → Bytes
aes_icm_key30 aes_key salt = take 16 aes_key ++ take 14 salt

-- `a[i] ^= b[i]` over the bytes of `a`.
unfoldable pub xor_bytes : Bytes → Bytes → Bytes
xor_bytes [] ks = []
xor_bytes (x ∷ xs) [] = x ∷ xs
xor_bytes (x ∷ xs) (k ∷ ks) = bit_xor x k ∷ xor_bytes xs ks

-- `counter[i]++` on a byte.
unfoldable pub bump : ℕ → Bytes → Bytes
bump i [] = []
bump zero (b ∷ bs) = u8 (b + 1) ∷ bs
bump (suc i) (b ∷ bs) = b ∷ bump i bs

unfoldable pub next_counter : Bytes → Bytes
next_counter counter =
    let next = bump 15 counter in if byte_at next 15 == 0 then bump 14 next else next

-- `BuildRtpICMNonce`: the index shifted by 16 bits is a uint64.
unfoldable pub build_rtp_icm_nonce : ℕ → ℕ → Bytes
build_rtp_icm_nonce ssrc packet_index =
    let word = u64 (packet_index * 65536) in
    replicate 4 0 ++ (be32 ssrc ++ (be32 (word / 0x1_0000_0000) ++ be32 (word % 0x1_0000_0000)))

module _ (a : Aes) where
  -- The loop of `aesICMCrypt` at what is left of the data. Each round takes a byte at least, so the
  -- data's length is enough fuel.
  unfoldable pub icm_blocks : ℕ → Bytes → Bytes → Bytes → Bytes
  icm_blocks zero key counter xs = []
  icm_blocks (suc fuel) key counter xs =
      let rest = icm_blocks fuel key (next_counter counter) (drop 16 xs) in
      if leb (length xs) 0 then [] else xor_bytes (take 16 xs) (a.block key counter) ++ rest

  -- `aesICMCrypt`
  unfoldable pub aes_icm_crypt : Bytes → Bytes → Bytes → Option Bytes
  aes_icm_crypt key30 iv16 xs =
      let counter = xor_bytes (slice 16 30 key30 ++ (0 ∷ 0 ∷ [])) iv16 in
      if a.accepts_key (take 16 key30)
      then some (icm_blocks (length xs) (take 16 key30) counter xs)
      else none

  -- `deriveSessionBytes`
  unfoldable pub derive_session_bytes : Bytes → Bytes → ℕ → ℕ → Option Bytes
  derive_session_bytes master_key master_salt label n =
      aes_icm_crypt (aes_icm_key30 master_key master_salt)
        (replicate 7 0 ++ (label ∷ replicate 8 0)) (replicate n 0)

  -- `ExpandLibsrtpSessionKeys`
  unfoldable pub expand_libsrtp_session_keys : SrtpKeyingMaterial → Option LibsrtpSessionKeys
  expand_libsrtp_session_keys keying = do
    session_key ← derive_session_bytes keying.master_key keying.master_salt 0x00 16
    session_salt ← derive_session_bytes keying.master_key keying.master_salt 0x02 14
    auth_key ← derive_session_bytes keying.master_key keying.master_salt 0x01 20
    some (record {
      session_key = session_key;
      session_salt = session_salt;
      session_auth_key = auth_key;
    })

  -- `CryptRtpPayload`
  unfoldable pub crypt_rtp_payload : LibsrtpSessionKeys → ℕ → ℕ → Bytes → Option Bytes
  crypt_rtp_payload session ssrc packet_index payload =
      aes_icm_crypt (aes_icm_key30 session.session_key session.session_salt)
        (build_rtp_icm_nonce ssrc packet_index) payload
