-- ===== src/Rtp/H264/Tests.antt =====
-- Packets of small units.
use meowcaller.Base.{
  ℕ, ◌≤◌, ◌≡◌, refl, Bool, true, false, List, [], ◌∷◌, arith, length, replicate, length-replicate,
  Bytes,
}
use meowcaller.Rtp.H264.{
  H264Depacketizer, package_h264_nalu, package_h264_stap_a, depacketize, split_annex_b, au_has_idr,
  split_from, close_nalu, last_nalu, trim_zeros, annex_b_start_code_len, any_idr, stap_a_size,
  stap_a_body,
}
use meowcaller.Rtp.H264.Fragments.{depacketize_all, package-depacketize}
use meowcaller.Rtp.H264.Aggregates.{package-depacketize_stap_a}
use meowcaller.Rtp.H264.AnnexB.{byte_stream, split_annex_b-byte_stream}

abbrev broken_off : H264Depacketizer
broken_off = record { fu_buf = 1 ∷ 2 ∷ []; fu_type = 5; fu_nri_f = 0x60; fu_active = true }

package-depacketize_example :
    depacketize_all broken_off (package_h264_nalu (0x65 ∷ replicate 1000 7))
    ≡ (0x65 ∷ replicate 1000 7) ∷ []
package-depacketize_example =
    package-depacketize 0x65 (replicate 1000 7) (omega arith)
      (omega (arith, length-replicate {A = ℕ} 1000 7)) broken_off (omega arith) (omega arith)

abbrev two_units : List Bytes
two_units = (0x67 ∷ 1 ∷ 2 ∷ []) ∷ (0x68 ∷ 3 ∷ []) ∷ []

two_units_aggregate :
    package_h264_stap_a two_units ≡ 0x78 ∷ 0 ∷ 3 ∷ 0x67 ∷ 1 ∷ 2 ∷ 0 ∷ 2 ∷ 0x68 ∷ 3 ∷ []
two_units_aggregate = unfold package_h264_stap_a stap_a_size stap_a_body in refl

package-depacketize_stap_a_example :
    ((depacketize broken_off (package_h264_stap_a two_units)).1 ≡ two_units)
    × (2 ≤ length two_units)
package-depacketize_stap_a_example =
    package-depacketize_stap_a broken_off two_units (λ e. cc (two_units_aggregate, e))

abbrev stream_bytes : Bytes
stream_bytes = 0 ∷ 0 ∷ 0 ∷ 1 ∷ 0x67 ∷ 9 ∷ 0 ∷ 0 ∷ 1 ∷ 0x65 ∷ 8 ∷ []

stream_units : split_annex_b stream_bytes ≡ (0x67 ∷ 9 ∷ []) ∷ (0x65 ∷ 8 ∷ []) ∷ []
unfolding split_annex_b split_from close_nalu last_nalu trim_zeros annex_b_start_code_len
stream_units = refl

stream_has_idr : au_has_idr stream_bytes ≡ true
unfolding au_has_idr any_idr
stream_has_idr = rw stream_units refl

abbrev access_unit : List (Bool × Bytes)
access_unit = (true, 0x67 ∷ 0 ∷ 0 ∷ 9 ∷ []) ∷ (false, 0x65 ∷ 8 ∷ []) ∷ []

split_annex_b-byte_stream_example :
    split_annex_b (byte_stream access_unit) ≡ (0x67 ∷ 0 ∷ 0 ∷ 9 ∷ []) ∷ (0x65 ∷ 8 ∷ []) ∷ []
split_annex_b-byte_stream_example = split_annex_b-byte_stream access_unit (ground arith)
