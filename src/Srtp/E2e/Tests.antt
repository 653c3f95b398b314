-- ===== src/Srtp/E2e/Tests.antt =====
-- The end-to-end cipher on sample keys.
use meowcaller.Base.{◌≡◌, refl, some, [], ◌∷◌, arith, length, replicate, Bytes}
use meowcaller.Srtp.Sample.{sample_crypto}
use meowcaller.Srtp.E2e.{E2eSrtpKeys, crypt_payload, protect_srtcp, unprotect_srtcp}
use meowcaller.Srtp.Crypto.{xor_stream}
use meowcaller.Srtp.E2e.Crypt.{IsKeys}
use meowcaller.Srtp.E2e.Counter.{counter_block, crypt_payload-counter_block}
use meowcaller.Srtp.E2e.Srtcp.{unprotect-protect_srtcp}

abbrev sample_keys : E2eSrtpKeys
sample_keys = record {
  cipher_key = replicate 16 1;
  salt = replicate 14 2;
  auth_key = replicate 20 3;
}

sample_keys-IsKeys : IsKeys sample_crypto sample_keys
sample_keys-IsKeys = record { length-cipher_key = refl; length-salt = refl; length-auth_key = refl }

crypt_payload-counter_block_example :
    crypt_payload sample_crypto sample_keys 9 65535 1 (1 ∷ 2 ∷ 3 ∷ [])
    ≡ some (
        xor_stream
          (sample_crypto.keystream sample_keys.cipher_key (counter_block sample_keys.salt 9 131071))
          0
          (1 ∷ 2 ∷ 3 ∷ []))
crypt_payload-counter_block_example =
    crypt_payload-counter_block sample_crypto sample_keys 9 131071 (1 ∷ 2 ∷ 3 ∷ [])
      sample_keys-IsKeys (omega arith) (omega arith) (omega arith)

abbrev sample_rtcp : Bytes
sample_rtcp = 0x80 ∷ 200 ∷ 0 ∷ 2 ∷ 0 ∷ 0 ∷ 0 ∷ 9 ∷ 1 ∷ 2 ∷ 3 ∷ 4 ∷ []

unprotect-protect_srtcp_example :
    (packet : Bytes) × (protect_srtcp sample_crypto sample_keys 9 70000 sample_rtcp ≡ some packet)
    × (unprotect_srtcp sample_crypto sample_keys 9 packet ≡ some (sample_rtcp, 70000))
    × (length packet ≡ 26)
unprotect-protect_srtcp_example =
    unprotect-protect_srtcp sample_crypto sample_keys sample_keys-IsKeys 9 70000 sample_rtcp
      (omega arith) (omega arith) (omega arith)
