-- ===== src/Srtp/E2e/Counter.antt =====
-- The initial counter block of RFC 3711, section 4.1.1.
use meowcaller.Base.{
  ℕ, zero, suc, ◌+◌, ◌-◌, ◌*◌, ◌/◌, ◌%◌, ◌^◌, ◌≡◌, refl, ap, sym, ◌∙◌, bit_xor, Bool, true, ◌==◌,
  ==_iff, some, [], ◌∷◌, ◌++◌, arith, length, replicate, length-append, All-append, Bytes, IsU8,
  IsU32, IsBytes, u64, be16, be32, be32-IsBytes,
}
use meowcaller.Base.Bits.{passes, passes_at, xor-IsByte}
use meowcaller.Srtp.Crypto.{Crypto, xor_stream}
use meowcaller.Srtp.Roc.Exact.{IsIndex, seq_of, roc_of}
use meowcaller.Srtp.E2e.{E2eSrtpKeys, xor_onto, build_e2e_rtp_iv, crypt_payload}
use meowcaller.Srtp.E2e.Crypt.{IsKeys}

-- A number as so many bytes, the most significant first.
abbrev pub digits : ℕ → ℕ → Bytes
digits zero n = []
digits (suc count) n = n / 256 ^ count % 256 ∷ digits count n

abbrev pub xor_each : Bytes → Bytes → Bytes
xor_each [] ys = []
xor_each (x ∷ xs) [] = []
xor_each (x ∷ xs) (y ∷ ys) = bit_xor x y ∷ xor_each xs ys

-- IV = (salt * 2^16) XOR (SSRC * 2^64) XOR (i * 2^16)
unfoldable pub counter_block : Bytes → ℕ → ℕ → Bytes
counter_block salt ssrc index =
    xor_each (xor_each (salt ++ (0 ∷ 0 ∷ [])) (digits 16 (ssrc * 2 ^ 64)))
      (digits 16 (index * 2 ^ 16))

ssrc_digits :
    (ssrc : ℕ)
    → IsU32 ssrc
    → digits 16 (ssrc * 2 ^ 64) ≡ replicate 4 0 ++ (be32 ssrc ++ replicate 8 0)
ssrc_digits ssrc h = ground arith

index_digits :
    (index : ℕ)
    → IsIndex index
    → digits 16 (index * 2 ^ 16)
      ≡ replicate 8 0 ++ ((be16 (index / 2 ^ 32) ++ be32 (index % 2 ^ 32)) ++ replicate 2 0)
index_digits index h = ground arith

abbrev unchanged : ℕ → Bool
unchanged b = bit_xor b 0 == b

all_unchanged : passes unchanged 256 ≡ true
unfolding passes
all_unchanged = refl

xor_zero : (b : ℕ) → IsU8 b → bit_xor b 0 ≡ b
xor_zero b h = (==_iff _ b).0 (passes_at unchanged 256 b h all_unchanged)

xor_each-zeros :
    (k : ℕ) (xs : Bytes) → IsBytes xs → k ≡ length xs → xor_each xs (replicate k 0) ≡ xs
xor_each-zeros zero [] h e = refl
xor_each-zeros zero (x ∷ xs) h e = absurd (omega arith)
xor_each-zeros (suc k) [] h e = absurd (omega arith)
xor_each-zeros (suc k) (x ∷ xs) (hx, h) e = ground (arith, xor_zero x hx, xor_each-zeros k xs h)

-- XOR onto a part is XOR with a mask that is zero elsewhere.
pub xor_onto-xor_each :
    (n k : ℕ) (mask iv : Bytes)
    → IsBytes iv
    → n + (length mask + k) ≡ length iv
    → xor_onto n mask iv ≡ xor_each iv (replicate n 0 ++ (mask ++ replicate k 0))
unfolding xor_onto
xor_onto-xor_each zero k [] [] h e = ground arith
xor_onto-xor_each zero k [] (b ∷ iv) h e = sym (xor_each-zeros k (b ∷ iv) h (omega arith))
xor_onto-xor_each zero k (m ∷ mask) [] h e = absurd (omega arith)
xor_onto-xor_each zero k (m ∷ mask) (b ∷ iv) (hb, h) e =
    ap (◌∷◌ (bit_xor b m)) (xor_onto-xor_each zero k mask iv h (omega arith))
xor_onto-xor_each (suc n) k mask [] h e = absurd (omega arith)
xor_onto-xor_each (suc n) k mask (b ∷ iv) (hb, h) e =
    ground (arith, xor_zero b hb, xor_onto-xor_each n k mask iv h)

pub xor_onto-append :
    (n : ℕ) (a b iv : Bytes) → xor_onto n (a ++ b) iv ≡ xor_onto (n + length a) b (xor_onto n a iv)
unfolding xor_onto
xor_onto-append n a b [] = refl
xor_onto-append zero [] b (v ∷ iv) = refl
xor_onto-append zero (m ∷ a) b (v ∷ iv) = ground (arith, xor_onto-append zero a b iv)
xor_onto-append (suc n) a b (v ∷ iv) = ground (arith, xor_onto-append n a b iv)

pub length-xor_onto : (n : ℕ) (mask iv : Bytes) → length (xor_onto n mask iv) ≡ length iv
unfolding xor_onto
length-xor_onto n mask [] = refl
length-xor_onto zero [] (v ∷ iv) = refl
length-xor_onto zero (m ∷ mask) (v ∷ iv) = ground (arith, length-xor_onto zero mask iv)
length-xor_onto (suc n) mask (v ∷ iv) = ground (arith, length-xor_onto n mask iv)

pub xor_onto-IsBytes :
    (n : ℕ) (mask iv : Bytes) → IsBytes mask → IsBytes iv → IsBytes (xor_onto n mask iv)
unfolding xor_onto
xor_onto-IsBytes n mask [] h k = tt
xor_onto-IsBytes zero [] (v ∷ iv) h k = k
xor_onto-IsBytes zero (m ∷ mask) (v ∷ iv) (hm, h) (kv, k) =
    (xor-IsByte v m kv hm, xor_onto-IsBytes zero mask iv h k)
xor_onto-IsBytes (suc n) mask (v ∷ iv) h (kv, k) = (kv, xor_onto-IsBytes n mask iv h k)

iv-mask :
    (salt : Bytes) (ssrc index : ℕ)
    → length salt ≡ 14
    → IsIndex index
    → build_e2e_rtp_iv salt ssrc (roc_of index) (seq_of index)
      ≡ xor_onto 4
          (be32 ssrc ++ (be16 (index / 2 ^ 32) ++ be32 (index % 2 ^ 32)))
          (salt ++ (0 ∷ 0 ∷ []))
unfolding build_e2e_rtp_iv
iv-mask salt ssrc index len h =
    let whole : u64 (roc_of index * 0x10000 + seq_of index) ≡ index = omega arith in
    let full : 14 - length salt ≡ 0 = omega arith in
    let high : index / 2 ^ 32 % 0x10000 ≡ index / 2 ^ 32 = omega arith in
    rw (whole, full, high) refl

iv-counter_block :
    (salt : Bytes) (ssrc index : ℕ)
    → IsBytes salt
    → length salt ≡ 14
    → IsU32 ssrc
    → IsIndex index
    → build_e2e_rtp_iv salt ssrc (roc_of index) (seq_of index) ≡ counter_block salt ssrc index
unfolding counter_block
iv-counter_block salt ssrc index bytes len small h =
    let iv = salt ++ (0 ∷ 0 ∷ []) in
    let mask = be16 (index / 2 ^ 32) ++ be32 (index % 2 ^ 32) in
    let size : length iv ≡ 16 = omega (arith, length-append salt (0 ∷ 0 ∷ [])) in
    let iv-IsBytes = All-append IsU8 salt (0 ∷ 0 ∷ []) bytes (omega arith) in
    let first = xor_onto 4 (be32 ssrc) iv in
    iv-mask salt ssrc index len h
    ∙ xor_onto-append 4 (be32 ssrc) mask iv
    ∙ xor_onto-xor_each 8 2 mask first
        (xor_onto-IsBytes 4 (be32 ssrc) iv (be32-IsBytes ssrc) iv-IsBytes)
        (omega (arith, length-xor_onto 4 (be32 ssrc) iv))
    ∙ rw
        (
          ssrc_digits ssrc small,
          index_digits index h,
          xor_onto-xor_each 4 8 (be32 ssrc) iv iv-IsBytes (omega arith),
        )
        refl

module _ (c : Crypto) where
  -- Under keys of the derived sizes with a salt of bytes, for a 32-bit SSRC and the rollover
  -- counter and sequence number of a 48-bit packet index, CryptPayload does not fail, and XORs
  -- the payload with the keystream that the cipher key gives from the 16-byte counter block (salt
  -- * 2^16) XOR (SSRC * 2^64) XOR (index * 2^16) of RFC 3711.
  pub crypt_payload-counter_block :
      (keys : E2eSrtpKeys) (ssrc index : ℕ) (payload : Bytes)
      → IsKeys c keys
      → IsBytes keys.salt
      → IsU32 ssrc
      → IsIndex index
      → crypt_payload c keys ssrc (seq_of index) (roc_of index) payload
        ≡ some (
            xor_stream (c.keystream keys.cipher_key (counter_block keys.salt ssrc index)) 0 payload)
  unfolding crypt_payload
  crypt_payload-counter_block keys ssrc index payload k bytes small h =
      rw
        (
          c.accepts_16 keys.cipher_key k.length-cipher_key,
          iv-counter_block keys.salt ssrc index bytes k.length-salt small h,
        )
        refl
