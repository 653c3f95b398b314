-- ===== src/Rtp/H264/Aggregates.antt =====
-- NAL units that share a packet are taken apart again.
use meowcaller.Base.{
  ℕ, zero, suc, ◌+◌, ◌*◌, ◌/◌, ◌%◌, ◌≤◌, ◌<◌, ◌≡◌, refl, ◌≢◌, ◌⊎◌, inl, inr, none, some, List, [],
  ◌∷◌, arith, ltb, if◌then◌else◌, Option-cases, length, All, length-append, take-append,
  drop-append, Bytes, u8, shr, byte_at,
}
use meowcaller.Rtp.H264.{
  H264Depacketizer, depacketize, stap_a_units, stap_a_size, stap_a_body, package_h264_stap_a,
}

-- A unit of 1 to 65535 bytes.
abbrev FitsLength : Bytes → Type 0
FitsLength n = (0 < length n) × (length n ≤ 65535)

stap_a_units_lem :
    (fuel : ℕ) (nalus : List Bytes)
    → All FitsLength nalus
    → length (stap_a_body nalus) ≤ fuel
    → stap_a_units fuel (stap_a_body nalus) ≡ nalus
unfolding stap_a_units stap_a_body
stap_a_units_lem zero [] h f = refl
stap_a_units_lem zero (n ∷ nalus) h f = absurd (omega arith)
stap_a_units_lem (suc fuel) [] h f = refl
stap_a_units_lem (suc fuel) (n ∷ nalus) ((lo, hi), h) f =
    let size : u8 (shr (length n) 8) * 256 + u8 (length n) ≡ length n = omega arith in
    let total = length-append n (stap_a_body nalus) in
    rw
      (
        size,
        take-append (length n) n (stap_a_body nalus) refl,
        drop-append (length n) n (stap_a_body nalus) refl,
        stap_a_units_lem fuel nalus h (omega (arith, total)),
      )
      (ground (arith, total))

-- What passes the size check has units that fit, of no more than the budget, and an NRI.
stap_a_size-some :
    (nalus : List Bytes) (total max_nri size nri : ℕ)
    → (max_nri % 32 ≡ 0) × (max_nri ≤ 96)
    → stap_a_size total max_nri nalus ≡ some (size, nri)
    → All FitsLength nalus
      × ((nri % 32 ≡ 0) × (nri ≤ 96))
      × (size ≡ total + length (stap_a_body nalus))
unfolding stap_a_size stap_a_body
stap_a_size-some [] total max_nri size nri m e = ground (arith, e)
stap_a_size-some (n ∷ nalus) total max_nri size nri m e = ground (
  arith,
  stap_a_size-some nalus (total + (2 + length n))
      (if ltb max_nri (byte_at n 0 / 32 % 4 * 32) then byte_at n 0 / 32 % 4 * 32 else max_nri) size
      nri,
  length-append n (stap_a_body nalus),
)

depacketize_aggregate :
    (d : H264Depacketizer) (nri : ℕ) (body : Bytes)
    → (nri % 32 ≡ 0) × (nri ≤ 96)
    → (depacketize d ((nri + 24) ∷ body)).1 ≡ stap_a_units (suc (length body)) body
unfolding depacketize
depacketize_aggregate d nri body h = ground (arith, h)

package_made :
    (nalus : List Bytes) (size nri : ℕ)
    → stap_a_size 1 0 nalus ≡ some (size, nri)
    → 2 ≤ length nalus
    → package_h264_stap_a nalus ≡ (nri + 24) ∷ stap_a_body nalus
unfolding package_h264_stap_a
package_made nalus size nri e h = ground (arith, e, h)

package_refused :
    (nalus : List Bytes)
    → (stap_a_size 1 0 nalus ≡ none) ⊎ (length nalus < 2)
    → package_h264_stap_a nalus ≡ []
unfolding package_h264_stap_a
package_refused nalus h = ground (arith, h)

-- An aggregate that PackageH264STAPA builds is of at least two NAL units, and the depacketizer
-- takes it apart into the units it was built of.
pub package-depacketize_stap_a :
    (d : H264Depacketizer) (nalus : List Bytes)
    → package_h264_stap_a nalus ≢ []
    → ((depacketize d (package_h264_stap_a nalus)).1 ≡ nalus) × (2 ≤ length nalus)
package-depacketize_stap_a d nalus made = elim (Option-cases (stap_a_size 1 0 nalus)) [
  | inl e ↦ absurd (made (package_refused nalus (inl e)))
  | inr ((size, nri), e) ↦
      let many : 2 ≤ length nalus = ground (arith, made, package_refused nalus) in
      let (fit, bound, _) = stap_a_size-some nalus 1 0 size nri (refl, omega arith) e in
      (
        rw
            (
              package_made nalus size nri e many,
              depacketize_aggregate d nri (stap_a_body nalus) bound,
            )
            (stap_a_units_lem (suc (length (stap_a_body nalus))) nalus fit (omega arith)),
        many,
      )
]
