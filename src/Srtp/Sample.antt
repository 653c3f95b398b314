-- ===== src/Srtp/Sample.antt =====
-- Concrete values of the crypto parameters, for examples: a keystream that counts, and constant MACs
-- and key material.
use meowcaller.Base.{
  ℕ, ◌+◌, ◌-◌, ◌%◌, ◌≡◌, refl, ap, true, Option, some, ◌++◌, arith, length, take, replicate,
  length-append, length-replicate, take-append, Bytes, byte_at,
}
use meowcaller.Srtp.Crypto.{Crypto}
use meowcaller.Srtp.Sframe.{Gcm}

abbrev pub sample_crypto : Crypto
sample_crypto = record {
  accepts = λ key. true;
  accepts_16 = λ key h. refl;
  keystream = λ key iv i. (i + byte_at iv 13 + 7) % 256;
  keystream-IsU8 = λ key iv i. omega arith;
  hmac_sha1 = λ key message. replicate 20 (length message % 256);
  length-hmac_sha1 = λ key message. length-replicate {A = ℕ} 20 (length message % 256);
  hkdf_sha256 = λ salt ikm info n. some (replicate n (length info % 256));
  length-hkdf_sha256 = λ salt ikm info n h.
      (replicate n (length info % 256), refl, length-replicate {A = ℕ} n (length info % 256));
}

pub open_after : Bytes → Option Bytes
open_after sealed = some (take (length sealed - 16) sealed)

pub open_after-seal : (plain : Bytes) → open_after (plain ++ replicate 16 9) ≡ some plain
unfolding open_after
open_after-seal plain = ap some (
    take-append (length (plain ++ replicate 16 9) - 16) plain (replicate 16 9)
      (omega (arith, length-append plain (replicate 16 9))))

abbrev pub sample_gcm : Gcm
sample_gcm = record {
  seal = λ key nonce plain. plain ++ replicate 16 9;
  open_sealed = λ key nonce sealed. open_after sealed;
  length-seal = λ key nonce plain. length-append plain (replicate 16 9);
  open-seal = λ key nonce plain. open_after-seal plain;
}
