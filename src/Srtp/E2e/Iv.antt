-- ===== src/Srtp/E2e/Iv.antt =====
-- The RTP IV as a function of SSRC, ROC and sequence number.
use meowcaller.Base.{
  ℕ, zero, suc, ◌+◌, ◌-◌, ◌*◌, ◌%◌, ◌≤◌, ◌≡◌, refl, [], ◌∷◌, ◌++◌, arith, length, replicate,
  length-append, length-replicate, All-append, Bytes, IsU8, IsU16, IsU32, IsBytes, u64, shr, be16,
  be32,
}
use meowcaller.Base.Bits.{xor_injective}
use meowcaller.Srtp.E2e.{xor_onto, build_e2e_rtp_iv}

xor_onto-injective :
    (n : ℕ) (iv mask mask' : Bytes)
    → IsBytes iv
    → IsBytes mask
    → IsBytes mask'
    → n + length mask ≤ length iv
    → length mask ≡ length mask'
    → xor_onto n mask iv ≡ xor_onto n mask' iv
    → mask ≡ mask'
unfolding xor_onto
xor_onto-injective n iv [] [] hi hm hm' fit same e = refl
xor_onto-injective n iv [] (m' ∷ mask') hi hm hm' fit same e = absurd (omega arith)
xor_onto-injective n iv (m ∷ mask) [] hi hm hm' fit same e = absurd (omega arith)
xor_onto-injective n [] (m ∷ mask) (m' ∷ mask') hi hm hm' fit same e = absurd (omega arith)
xor_onto-injective zero (b ∷ iv) (m ∷ mask) (m' ∷ mask') (hb, hi) (hm, hms) (hm', hms') fit same e =
    ground (
      arith,
      xor_injective b m m',
      xor_onto-injective zero iv mask mask' hi hms hms' (omega arith) (omega arith),
    )
xor_onto-injective (suc n) (b ∷ iv) (m ∷ mask) (m' ∷ mask') (hb, hi) hms hms' fit same e =
    ground (
      arith,
      xor_onto-injective n iv (m ∷ mask) (m' ∷ mask') hi hms hms' (omega arith) (omega arith),
    )

abbrev index_mask : ℕ → ℕ → ℕ → Bytes
index_mask ssrc roc seq =
    let packet_index = u64 (roc * 0x10000 + seq) in
    be32 ssrc ++ (be16 (shr packet_index 32 % 0x10000) ++ be32 (packet_index % 0x1_0000_0000))

index_mask-injective :
    (ssrc roc seq ssrc' roc' seq' : ℕ)
    → IsU32 ssrc
    → IsU32 roc
    → IsU16 seq
    → IsU32 ssrc'
    → IsU32 roc'
    → IsU16 seq'
    → index_mask ssrc roc seq ≡ index_mask ssrc' roc' seq'
    → (ssrc ≡ ssrc') × (roc ≡ roc') × (seq ≡ seq')
index_mask-injective ssrc roc seq ssrc' roc' seq' h₁ h₂ h₃ h₄ h₅ h₆ e = ground arith

padded-IsBytes : (n : ℕ) (salt : Bytes) → IsBytes salt → IsBytes (replicate n 0 ++ salt)
padded-IsBytes zero salt h = h
padded-IsBytes (suc n) salt h = (omega arith, padded-IsBytes n salt h)

length-padded :
    (salt : Bytes)
    → length salt ≡ 14
    → length (replicate (14 - length salt) 0 ++ (salt ++ (0 ∷ 0 ∷ []))) ≡ 16
length-padded salt h = omega (
  arith,
  length-append (replicate (14 - length salt) 0) (salt ++ (0 ∷ 0 ∷ [])),
  length-append salt (0 ∷ 0 ∷ []),
  length-replicate {A = ℕ} (14 - length salt) 0,
)

-- Under one 14-byte salt, equal IVs come from equal SSRC, ROC and sequence number.
pub build_iv-injective :
    (salt : Bytes) (ssrc roc seq ssrc' roc' seq' : ℕ)
    → IsBytes salt
    → length salt ≡ 14
    → IsU32 ssrc
    → IsU32 roc
    → IsU16 seq
    → IsU32 ssrc'
    → IsU32 roc'
    → IsU16 seq'
    → build_e2e_rtp_iv salt ssrc roc seq ≡ build_e2e_rtp_iv salt ssrc' roc' seq'
    → (ssrc ≡ ssrc') × (roc ≡ roc') × (seq ≡ seq')
unfolding build_e2e_rtp_iv
build_iv-injective salt ssrc roc seq ssrc' roc' seq' hs len h₁ h₂ h₃ h₄ h₅ h₆ e =
    index_mask-injective ssrc roc seq ssrc' roc' seq' h₁ h₂ h₃ h₄ h₅ h₆ (
      xor_onto-injective 4 _ (index_mask ssrc roc seq) (index_mask ssrc' roc' seq')
        (padded-IsBytes (14 - length salt) (salt ++ (0 ∷ 0 ∷ []))
          (All-append IsU8 salt (0 ∷ 0 ∷ []) hs (omega arith)))
        (omega arith) (omega arith) (omega (arith, length-padded salt len)) refl e)
