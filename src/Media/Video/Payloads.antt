-- ===== src/Media/Video/Payloads.antt =====
-- The payloads of a NAL unit can be sent.
use meowcaller.Base.{
  ℕ, zero, suc, ◌+◌, ◌-◌, ◌<◌, min, ◌≡◌, refl, inl, inr, true, List, [], ◌∷◌, arith, ltb, leb,
  Bool-cases, length, drop, All, All-drop, All-take, Bytes, IsU8, IsBytes,
}
use meowcaller.Rtp.H264.{
  fragments, package_h264_nalu, f_bit_and_nri, type_bits, mtu_payload_max, fu_a_type,
}
use meowcaller.Session.Pipeline.Packets.{IsPayload}

fragments-IsPayload :
    (fuel fu_indicator original_type : ℕ) (body : Bytes) (offset : ℕ)
    → IsU8 fu_indicator
    → original_type < 32
    → IsBytes body
    → All IsPayload (fragments fuel fu_indicator original_type body offset)
unfolding fragments
fragments-IsPayload zero fu_indicator original_type body offset i t b = tt
fragments-IsPayload (suc fuel) fu_indicator original_type body offset i t b =
    let end = min (offset + 798) (length body) in
    let rest = fragments-IsPayload fuel fu_indicator original_type body end i t b in
    let chunk = All-take IsU8 (end - offset) (drop offset body) (All-drop IsU8 offset body b) in
    elim (Bool-cases (ltb offset (length body))) [
      | inl more ↦ rw more (((i, (ground arith, chunk)), omega arith), rest)
      | inr over ↦ rw over tt
    ]

pub package-IsPayload : (unit : Bytes) → IsBytes unit → All IsPayload (package_h264_nalu unit)
unfolding package_h264_nalu
package-IsPayload [] b = tt
package-IsPayload (header ∷ body) (h, b) =
    elim (Bool-cases (leb (suc (length body)) mtu_payload_max)) [
      | inl whole ↦ rw whole (((h, b), omega arith), tt)
      | inr split ↦ rw split (
          fragments-IsPayload (length body) (f_bit_and_nri header + fu_a_type) (type_bits header)
            body 0 (omega arith) (omega arith) b)
    ]

-- There is at least one.
fragments-some :
    (fu_indicator original_type : ℕ) (body : Bytes)
    → 0 < length body
    → (x : Bytes) × (xs : List Bytes) × (fragments (length body) fu_indicator original_type body 0
        ≡ x ∷ xs)
unfolding fragments
fragments-some fu_indicator original_type [] e = absurd (omega arith)
fragments-some fu_indicator original_type (b ∷ bs) e =
    let more : ltb 0 (length (b ∷ bs)) ≡ true = ground arith in rw more (_, _, refl)

pub package-some :
    (header : ℕ) (body : Bytes)
    → (x : Bytes) × (xs : List Bytes) × (package_h264_nalu (header ∷ body) ≡ x ∷ xs)
unfolding package_h264_nalu
package-some header body = elim (Bool-cases (leb (suc (length body)) mtu_payload_max)) [
  | inl whole ↦ rw whole (header ∷ body, [], refl)
  | inr split ↦ rw split (
      fragments-some (f_bit_and_nri header + fu_a_type) (type_bits header) body
        (ground (arith, split)))
]
