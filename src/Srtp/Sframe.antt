-- ===== src/Srtp/Sframe.antt =====
-- srtp/sframe.go: frames sealed by AES-128-GCM with a trailing header of two varints and a length
-- byte. The varints are those of encoding/binary. An error, or `ok` false, is `none`.
pub mod Varint
pub mod Frames
mod Tests
use meowcaller.Base.{
  ℕ, zero, suc, ◌+◌, ◌-◌, ◌*◌, ◌/◌, ◌%◌, ◌≡◌, not, ◌&&◌, ◌||◌, Option, none, some, [], ◌∷◌, ◌++◌,
  ltb, ◌==◌, if◌then◌else◌, ◌>>=◌, length, take, drop, replicate, Bytes, u8, u64, byte_at, slice,
}
use meowcaller.Srtp.Crypto.{Crypto}
use meowcaller.Util.Participant.{format_participant_id}

-- AES-GCM of crypto/cipher with a 16-byte nonce and no additional data, as a parameter: `Seal` adds
-- a 16-byte tag, and `Open` under the same key and nonce undoes it.
pub record Gcm : Type 0 where
  pub seal : Bytes → Bytes → Bytes → Bytes
  pub open_sealed : Bytes → Bytes → Bytes → Option Bytes
  pub length-seal : (key nonce plain : Bytes) → length (seal key nonce plain) ≡ length plain + 16
  pub open-seal :
      (key nonce plain : Bytes) → open_sealed key nonce (seal key nonce plain) ≡ some plain

abbrev pub gcm_tag_len : ℕ
gcm_tag_len = 16

abbrev pub aes_key_len : ℕ
aes_key_len = 16

abbrev pub kdf_label_e2e_sframe : Bytes
kdf_label_e2e_sframe =
    b'e' ∷ b'2' ∷ b'e' ∷ 0x20 ∷ b's' ∷ b'f' ∷ b'r' ∷ b'a' ∷ b'm' ∷ b'e' ∷ 0x20 ∷ b'k' ∷ b'e' ∷ b'y'
    ∷ []

abbrev pub kdf_label_warp_auth : Bytes
kdf_label_warp_auth =
    b'w' ∷ b'a' ∷ b'r' ∷ b'p' ∷ 0x20 ∷ b'a' ∷ b'u' ∷ b't' ∷ b'h' ∷ 0x20 ∷ b'k' ∷ b'e' ∷ b'y' ∷ []

-- `SframeInfoLabel`
unfoldable pub sframe_info_label : Bytes → Bytes
sframe_info_label participant_id = kdf_label_e2e_sframe ++ participant_id

-- `splitCallKey`
unfoldable pub split_call_key : Bytes → Option (Bytes × Bytes)
split_call_key call_key =
    if length call_key == 32 then some (slice 0 16 call_key, slice 16 32 call_key) else none

-- `binary.AppendUvarint` appends this; a uint64 takes ten bytes at most.
unfoldable pub uvarint_bytes : ℕ → ℕ → Bytes
uvarint_bytes zero x = []
uvarint_bytes (suc fuel) x =
    let more = uvarint_bytes fuel (x / 128) in if ltb x 128 then x ∷ [] else (x % 128 + 128) ∷ more

-- `binary.Uvarint` from its byte `i` on: the value that is left and the count of bytes. It fails at
-- the end of the data and beyond 64 bits.
unfoldable pub uvarint : ℕ → Bytes → Option (ℕ × ℕ)
uvarint i [] = none
uvarint i (b ∷ bs) =
    let more = uvarint (suc i) bs in
    if i == 10
    then none
    else if ltb b 128
    then (if i == 9 && ltb 1 b then none else some (b, 1))
    else (more >>= λ r. some (b % 128 + 128 * r.0, suc r.1))

-- `counterToIV`: eight zero bytes, then the counter, low byte first.
unfoldable pub counter_to_iv : ℕ → Bytes
counter_to_iv counter =
    replicate 8 0
    ++ (counter % 256
        ∷ counter / 0x100 % 256
        ∷ counter / 0x1_0000 % 256
        ∷ counter / 0x100_0000 % 256
        ∷ counter / 0x1_0000_0000 % 256
        ∷ counter / 0x100_0000_0000 % 256
        ∷ counter / 0x1_0000_0000_0000 % 256
        ∷ counter / 0x100_0000_0000_0000 % 256
        ∷ [])

-- `buildSframeHeader`
unfoldable pub build_sframe_header : ℕ → ℕ → Bytes
build_sframe_header counter key_id =
    let h = uvarint_bytes 10 counter ++ uvarint_bytes 10 key_id in h ++ (u8 (length h + 1) ∷ [])

-- `parseSframeHeader`
unfoldable pub parse_sframe_header : Bytes → Option (ℕ × ℕ)
parse_sframe_header header =
    let body = take (length header - 1) header in
    if ltb (length header) 2
    then none
    else if not (byte_at header (length header - 1) == length header)
    then none
    else (do
      (counter, n) ← uvarint 0 body
      (key_id, _) ← uvarint 0 (drop n body)
      some (counter, key_id))

pub record SframeSession : Type 0 where
  pub self_participant_id : Bytes
  pub peer_participant_id : Bytes
  pub encrypt_key : Bytes
  pub decrypt_key : Bytes
  pub tx_counter : ℕ

module _ (c : Crypto) where
  -- `DeriveE2eSframeKeyForParticipant`
  unfoldable pub derive_e2e_sframe_key_for_participant : Bytes → Bytes → Option Bytes
  derive_e2e_sframe_key_for_participant call_key participant_id = do
    (salt, ikm) ← split_call_key call_key
    c.hkdf_sha256 salt ikm (sframe_info_label participant_id) 32

  -- `DeriveWarpAuthKey`
  unfoldable pub derive_warp_auth_key : Bytes → Option Bytes
  derive_warp_auth_key call_key =
      if not (length call_key == 32) then none else c.hkdf_sha256 [] call_key kdf_label_warp_auth 32

  -- `NewSframeSession`
  unfoldable pub new_sframe_session : Bytes → Bytes → Bytes → Option SframeSession
  new_sframe_session call_key self_jid peer_jid = do
    let self_id = format_participant_id self_jid
    let peer_id = format_participant_id peer_jid
    send_key ← derive_e2e_sframe_key_for_participant call_key peer_id
    recv_key ← derive_e2e_sframe_key_for_participant call_key self_id
    some (record {
      self_participant_id = self_id;
      peer_participant_id = peer_id;
      encrypt_key = take aes_key_len send_key;
      decrypt_key = take aes_key_len recv_key;
      tx_counter = 0;
    })

  module _ (g : Gcm) where
    -- `gcmEncrypt`
    unfoldable pub gcm_encrypt : Bytes → Bytes → Bytes → Option Bytes
    gcm_encrypt key nonce plain =
        if c.accepts (take aes_key_len key)
        then some (g.seal (take aes_key_len key) nonce plain)
        else none

    -- `gcmDecrypt`
    unfoldable pub gcm_decrypt : Bytes → Bytes → Bytes → Option Bytes
    gcm_decrypt key nonce ciphertext =
        if c.accepts (take aes_key_len key)
        then g.open_sealed (take aes_key_len key) nonce ciphertext
        else none

    -- `Encrypt`; the counter moves on even when it fails.
    unfoldable pub encrypt : SframeSession → Bytes → SframeSession × Option Bytes
    encrypt s plain =
        let counter = s.tx_counter in
        (
          record s { tx_counter = u64 (counter + 1) },
          (gcm_encrypt s.encrypt_key (counter_to_iv counter) plain >>= λ encrypted.
              some (encrypted ++ build_sframe_header counter 0)),
        )

    -- `Decrypt`
    unfoldable pub decrypt : SframeSession → Bytes → Option Bytes
    decrypt s frame =
        let header_len = byte_at frame (length frame - 1) in
        let header_start = length frame - header_len in
        if ltb (length frame) (gcm_tag_len + 3)
        then none
        else if ltb header_len 3 || ltb (length frame) header_len
        then none
        else if ltb header_start (gcm_tag_len + 1)
        then none
        else (do
          (counter, _) ← parse_sframe_header (drop header_start frame)
          gcm_decrypt s.decrypt_key (counter_to_iv counter) (take header_start frame))
