-- ===== src/Srtp/Hbh/Tests.antt =====
-- The counter of the cipher, and sample keys of a relay.
use meowcaller.Base.{
  ◌%◌, ◌≡◌, refl, true, some, [], ◌∷◌, ◌++◌, arith, length, replicate, Bytes, IsBytes,
}
use meowcaller.Srtp.Sample.{sample_crypto}
use meowcaller.Srtp.Hbh.{
  Aes, SrtpKeyingMaterial, LibsrtpSessionKeys, next_counter, bump, expand_libsrtp_session_keys,
  crypt_rtp_payload, keying_from_hbh_key_uplink,
}
use meowcaller.Srtp.Crypto.{xor_stream}
use meowcaller.Srtp.Hbh.Keystream.{relay_byte}
use meowcaller.Srtp.Hbh.Relay.{hbh_uplink}

-- The carry stops at byte 14.
counter_carry :
    next_counter (replicate 13 0 ++ (7 ∷ 255 ∷ 255 ∷ [])) ≡ replicate 13 0 ++ (7 ∷ 0 ∷ 0 ∷ [])
counter_carry = unfold next_counter bump in refl

constant_block-IsBytes : (key : Bytes) → IsBytes (replicate 16 (length key % 256))
constant_block-IsBytes key = omega arith

abbrev sample_aes : Aes
sample_aes = record {
  accepts_key = λ key. true;
  accepts_key_16 = λ key h. refl;
  block = λ key input. replicate 16 (length key % 256);
  length-block = λ key input. refl;
  block-IsBytes = λ key input. constant_block-IsBytes key;
}

hbh_uplink_example :
    (keying : SrtpKeyingMaterial) × (session : LibsrtpSessionKeys) × (out : Bytes)
    × (keying_from_hbh_key_uplink sample_crypto (replicate 30 6) ≡ some keying)
    × (expand_libsrtp_session_keys sample_aes keying ≡ some session)
    × (crypt_rtp_payload sample_aes session 5 65537 (replicate 20 1) ≡ some out)
    × (crypt_rtp_payload sample_aes session 5 65537 out ≡ some (replicate 20 1))
    × (length out ≡ 20)
    × (out ≡ xor_stream (relay_byte sample_aes session 5 65537) 0 (replicate 20 1))
hbh_uplink_example =
    hbh_uplink sample_aes sample_crypto (replicate 30 6) 5 65537 (replicate 20 1) refl (omega arith)
