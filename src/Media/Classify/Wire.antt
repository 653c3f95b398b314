-- ===== src/Media/Classify/Wire.antt =====
-- What is sent is told apart on the wire.
use meowcaller.Base.{
  ℕ, ◌≤◌, ◌<◌, ◌≡◌, ap, ◌∙◌, ◌⊎◌, inl, inr, Bool, true, Option, none, some, ◌∷◌, ◌++◌, append_assoc,
  arith, Bytes,
}
use meowcaller.Srtp.Crypto.{Crypto}
use meowcaller.Srtp.E2e.{E2eSrtpKeys, protect_srtcp}
use meowcaller.Rtp.Header.{RtpHeader, encode_rtp_header}
use meowcaller.Rtp.Rtcp.{RtcpSenderStats, build_report}
use meowcaller.Rtp.Reception.{ReceptionReport}
use meowcaller.Srtp.Roc.Exact.{roc_of}
use meowcaller.Srtp.Warp.{append_warp_mi_tag, compute_warp_mi_tag}
use meowcaller.Rtp.Header.Parser.{parse_rtp_header}
use meowcaller.Rtp.Header.RoundTrip.{parse-encode}
use meowcaller.Session.Pipeline.Packets.{IsPacket}
use meowcaller.Stun.{encode_stun_request, stun_pseudo_header}
use meowcaller.Media.Classify.{stun_packet, rtcp_packet, rtp_packet, classify_relay_packet}

-- A marked packet of a payload type 64 to 95 looks like RTCP.
abbrev pub LooksLikeRtcp : RtpHeader → Type 0
LooksLikeRtcp h = (h.marker ≡ true) × (64 ≤ h.payload_type) × (h.payload_type ≤ 95)

-- An encoded header classifies as RTP, unless it looks like RTCP.
pub classify-encode_rtp_header :
    (h : RtpHeader) (rest : Bytes)
    → h.payload_type < 128
    → (LooksLikeRtcp h × (classify_relay_packet (encode_rtp_header h ++ rest) ≡ rtcp_packet))
      ⊎ (classify_relay_packet (encode_rtp_header h ++ rest) ≡ rtp_packet)
unfolding classify_relay_packet encode_rtp_header
classify-encode_rtp_header h rest v = ground arith

module _ (c : Crypto) where
  classify-encode_stun_request :
      (crc32 : Bytes → ℕ) (msg_type : ℕ) (transaction_id attrs : Bytes) (key : Option Bytes)
      (on : Bool)
      → msg_type < 0x4000
      → classify_relay_packet (encode_stun_request c crc32 msg_type transaction_id attrs key on)
        ≡ stun_packet
  unfolding classify_relay_packet encode_stun_request stun_pseudo_header
  classify-encode_stun_request crc32 msg_type transaction_id attrs key on v = ground arith

  classify-protect_srtcp :
      (keys : E2eSrtpKeys) (ssrc index a b : ℕ) (rest packet : Bytes)
      → 64 ≤ a
      → 192 ≤ b
      → b ≤ 223
      → protect_srtcp c keys ssrc index (a ∷ b ∷ rest) ≡ some packet
      → classify_relay_packet packet ≡ rtcp_packet
  unfolding classify_relay_packet protect_srtcp
  classify-protect_srtcp keys ssrc index a b rest packet ha lo hi e = ground (arith, e)

  classify-report :
      (keys : E2eSrtpKeys) (ssrc index local_ssrc : ℕ) (stats : RtcpSenderStats) (now_ms : ℕ)
      (cname : Bytes) (report : Option ReceptionReport) (profile : Bool) (packet : Bytes)
      → protect_srtcp c keys ssrc index (build_report local_ssrc stats now_ms cname report profile)
        ≡ some packet
      → classify_relay_packet packet ≡ rtcp_packet
  unfolding build_report
  classify-report keys ssrc index local_ssrc stats now_ms cname none profile packet e =
      classify-protect_srtcp keys ssrc index _ 200 _ packet (ground arith) (omega arith)
        (omega arith) e
  classify-report keys ssrc index local_ssrc stats now_ms cname (some r) profile packet e =
      classify-protect_srtcp keys ssrc index _ 200 _ packet (ground arith) (omega arith)
        (omega arith) e

  -- ClassifyRelayPacket tells apart what the other parts build: a packet behind an encoded header
  -- with a 7-bit payload type is RTP, unless it is marked and of type 64 to 95, a protected
  -- sender report is RTCP, and a STUN request with a type below 0x4000 is STUN.
  pub kinds_told_apart :
      (h : RtpHeader) (rest : Bytes) (keys : E2eSrtpKeys) (ssrc index local_ssrc : ℕ)
      (stats : RtcpSenderStats) (now_ms : ℕ) (cname : Bytes) (report : Option ReceptionReport)
      (profile : Bool) (srtcp : Bytes) (crc32 : Bytes → ℕ) (msg_type : ℕ)
      (transaction_id attrs : Bytes) (key : Option Bytes) (on : Bool)
      → h.payload_type < 128
      → ¬ LooksLikeRtcp h
      → protect_srtcp c keys ssrc index (build_report local_ssrc stats now_ms cname report profile)
        ≡ some srtcp
      → msg_type < 0x4000
      → (classify_relay_packet (encode_rtp_header h ++ rest) ≡ rtp_packet)
        × (classify_relay_packet srtcp ≡ rtcp_packet)
        × (classify_relay_packet (encode_stun_request c crc32 msg_type transaction_id attrs key on)
            ≡ stun_packet)
  kinds_told_apart h rest keys ssrc index local_ssrc stats now_ms cname report profile srtcp crc32
        msg_type transaction_id attrs key on v n e m =
      (
        elim (classify-encode_rtp_header h rest v) [
          | inl (looks, _) ↦ absurd (n looks)
          | inr rtp ↦ rtp
        ],
        classify-report keys ssrc index local_ssrc stats now_ms cname report profile srtcp e,
        classify-encode_stun_request crc32 msg_type transaction_id attrs key on m,
      )

  -- A packet of media is told apart, and its header is read.
  pub packet_on_wire :
      (keys : E2eSrtpKeys) (i : ℕ) (payload packet : Bytes)
      (sent : IsPacket c keys i payload packet)
      → 96 ≤ sent.header.payload_type
      → (classify_relay_packet packet ≡ rtp_packet)
        × (parse_rtp_header packet ≡ some (record (sent.header) { extension_word = none }))
  packet_on_wire keys i payload packet sent high =
      let h = sent.header in
      let tail : Bytes =
        sent.body
        ++ compute_warp_mi_tag c keys.auth_key (encode_rtp_header h ++ sent.body) (roc_of i) 4 in
      let shape : packet ≡ encode_rtp_header h ++ tail =
        sent.packet_is
        ∙ (unfold append_warp_mi_tag in append_assoc (encode_rtp_header h) sent.body _) in
      (
        elim (classify-encode_rtp_header h tail sent.header_valid.payload_type_bound) [
          | inl ((_, _, low), _) ↦ absurd (omega arith)
          | inr e ↦ ap classify_relay_packet shape ∙ e
        ],
        ap parse_rtp_header shape ∙ parse-encode h tail sent.header_valid,
      )
