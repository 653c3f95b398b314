-- ===== src/Media/Classify/Tests.antt =====
-- Packets of each kind on sample keys.
use meowcaller.Base.{
  ◌≡◌, refl, true, Option, none, some, [], ◌∷◌, ◌++◌, arith, length, replicate, Bytes,
}
use meowcaller.Srtp.Sample.{sample_crypto}
use meowcaller.Srtp.E2e.{E2eSrtpKeys, protect_srtcp, crypt_payload}
use meowcaller.Rtp.Header.{RtpHeader, encode_rtp_header}
use meowcaller.Rtp.Rtcp.{build_report}
use meowcaller.Stun.{encode_stun_request, msg_allocate_request}
use meowcaller.Media.Classify.{stun_packet, rtcp_packet, rtp_packet, classify_relay_packet}
use meowcaller.Media.Classify.Wire.{LooksLikeRtcp, kinds_told_apart}

abbrev sample_keys : E2eSrtpKeys
sample_keys = record {
  cipher_key = replicate 16 1;
  salt = replicate 14 2;
  auth_key = replicate 20 3;
}

abbrev sample_report : Bytes
sample_report =
    build_report 6 (record { packets_sent = 1; octets_sent = 40; rtp_timestamp = 960 }) 1000
      (replicate 18 97) none true

unfoldable or_empty : Option Bytes → Bytes
or_empty none = []
or_empty (some xs) = xs

abbrev sample_srtcp : Bytes
sample_srtcp = or_empty (protect_srtcp sample_crypto sample_keys 6 1 sample_report)

sample_srtcp-made : protect_srtcp sample_crypto sample_keys 6 1 sample_report ≡ some sample_srtcp
unfolding protect_srtcp crypt_payload or_empty
sample_srtcp-made = refl

abbrev sample_header : RtpHeader
sample_header = record {
  marker = true;
  payload_type = 97;
  sequence_number = 1;
  timestamp = 0;
  ssrc = 6;
  extension_word = none;
  video_extension = none;
}

h264_is_clear : ¬ LooksLikeRtcp sample_header
h264_is_clear (_, _, high) = absurd (omega arith)

kinds_told_apart_example :
    (classify_relay_packet (encode_rtp_header sample_header ++ (1 ∷ [])) ≡ rtp_packet)
    × (classify_relay_packet sample_srtcp ≡ rtcp_packet)
    × (classify_relay_packet (
          encode_stun_request sample_crypto length msg_allocate_request
            (replicate 12 5)
            []
            none
            true)
        ≡ stun_packet)
kinds_told_apart_example =
    kinds_told_apart sample_crypto sample_header (1 ∷ []) sample_keys 6 1 6
      (record { packets_sent = 1; octets_sent = 40; rtp_timestamp = 960 }) 1000 (replicate 18 97)
      none true sample_srtcp length msg_allocate_request (replicate 12 5) [] none true (omega arith)
      h264_is_clear sample_srtcp-made (omega arith)
