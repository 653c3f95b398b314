-- ===== src/Srtp/Sframe/Tests.antt =====
-- Sframe headers and frames on sample values.
use meowcaller.Base.{
  ◌-◌, ◌≤◌, ◌≡◌, refl, some, List, [], ◌∷◌, map, arith, length, replicate, Bytes, byte_at,
}
use meowcaller.Srtp.Sample.{sample_crypto, sample_gcm}
use meowcaller.Srtp.Sframe.{
  SframeSession, uvarint_bytes, build_sframe_header, parse_sframe_header, new_sframe_session,
  decrypt,
}
use meowcaller.Srtp.Sframe.Varint.{parse-build_sframe_header}
use meowcaller.Srtp.Sframe.Frames.{encrypt_all, sframe_delivery}

header_300 : build_sframe_header 300 0 ≡ 0xac ∷ 2 ∷ 0 ∷ 4 ∷ []
unfolding build_sframe_header
header_300 = unfold uvarint_bytes in refl

parse-build_sframe_header_example :
    (parse_sframe_header (build_sframe_header 300 7) ≡ some (300, 7))
    × (3 ≤ length (build_sframe_header 300 7))
    × (length (build_sframe_header 300 7) ≤ 21)
    × (byte_at (build_sframe_header 300 7) (length (build_sframe_header 300 7) - 1)
        ≡ length (build_sframe_header 300 7))
parse-build_sframe_header_example = parse-build_sframe_header 300 7 (omega arith) (omega arith)

abbrev sample_frames : List Bytes
sample_frames = (1 ∷ 2 ∷ []) ∷ (3 ∷ []) ∷ []

sframe_delivery_example :
    (a b : SframeSession) × (frames : List Bytes) × (new_sframe_session sample_crypto
        (replicate 32 4)
        (b'a' ∷ [])
        (b'b' ∷ [])
      ≡ some a)
    × (new_sframe_session sample_crypto (replicate 32 4) (b'b' ∷ []) (b'a' ∷ []) ≡ some b)
    × (encrypt_all sample_crypto sample_gcm a sample_frames ≡ map some frames)
    × (map (decrypt sample_crypto sample_gcm b) frames ≡ map some sample_frames)
sframe_delivery_example =
    sframe_delivery sample_crypto sample_gcm (replicate 32 4) (b'a' ∷ []) (b'b' ∷ []) sample_frames
      refl (omega arith)
