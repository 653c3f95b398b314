-- ===== src/Rtp/Payload.antt =====
-- The Opus payload classifiers and the wire-size estimate of rtp/rtp.go.
mod Tests
use meowcaller.Base.{
  ℕ, ◌+◌, Bool, true, false, not, ◌&&◌, ◌||◌, [], ◌∷◌, ltb, leb, ◌==◌, if◌then◌else◌, length,
  bytes_equal, Bytes, shr, shl, byte_at,
}
use meowcaller.Rtp.Header.{whatsapp_rtp_header_size, whatsapp_rtp_header_dtx_size}

abbrev pub rtp_payload_type_opus : ℕ
rtp_payload_type_opus = 120

abbrev pub rtp_payload_type_app_data : ℕ
rtp_payload_type_app_data = 119

abbrev pub rtp_payload_type_h264 : ℕ
rtp_payload_type_h264 = 97

abbrev pub srtp_auth_tag_len : ℕ
srtp_auth_tag_len = 10

abbrev pub srtp_auth_tag_len_short : ℕ
srtp_auth_tag_len_short = 4

abbrev opus_priming_frame_1 : Bytes
opus_priming_frame_1 =
    0x12 ∷ 0x36 ∷ 0x26 ∷ 0x2b ∷ 0x4a ∷ 0xc8 ∷ 0x2b ∷ 0x09 ∷ 0xc9 ∷ 0x1f ∷ 0x34 ∷ 0xc2 ∷ 0xd6 ∷ 0x7a
    ∷ 0x01 ∷ 0x73 ∷ 0x1b ∷ 0x2e ∷ []

abbrev opus_priming_frame_2 : Bytes
opus_priming_frame_2 = 0x90 ∷ 0xb8 ∷ 0x14 ∷ 0x14 ∷ 0xc4 ∷ []

-- `IsWhatsappOpusRtpPayload`
unfoldable pub is_whatsapp_opus_rtp_payload : ℕ → Bool
is_whatsapp_opus_rtp_payload payload_type =
    payload_type == rtp_payload_type_opus || payload_type == 121

-- `IsOpusDtxPayload`. On a byte, `b & 0xf8` is `b >> 3 << 3`, and `b & 0xf0` is `b >> 4 << 4`.
unfoldable pub is_opus_dtx_payload : Bytes → Bool
is_opus_dtx_payload [] = false
is_opus_dtx_payload (b0 ∷ []) = b0 == 0x10 || (b0 == 0x88 || b0 == 0x90)
is_opus_dtx_payload (b0 ∷ b1 ∷ rest) =
    let len = length (b0 ∷ b1 ∷ rest) in
    if ltb 15 len
    then false
    else if shl (shr b0 3) 3 == 0x08 || b0 == 0x0a
    then true
    else shl (shr b0 4) 4 == 0x30 && leb len 6

-- `IsOpusMlowSpeechPayload`
unfoldable pub is_opus_mlow_speech_payload : Bytes → Bool
is_opus_mlow_speech_payload payload =
    let b0 = byte_at payload 0 in
    if ltb (length payload) 18 then false else shl (shr b0 3) 3 == 0x48 || shl (shr b0 3) 3 == 0x50

-- `IsOpusPrimingPayload`
unfoldable pub is_opus_priming_payload : Bytes → Bool
is_opus_priming_payload payload =
    bytes_equal payload opus_priming_frame_1 || bytes_equal payload opus_priming_frame_2

-- `EstimateSrtpRtpWireBytes`
unfoldable pub estimate_srtp_rtp_wire_bytes : Bytes → ℕ
estimate_srtp_rtp_wire_bytes opus_payload =
    let dtx = is_opus_dtx_payload opus_payload in
    let header_size = if dtx then whatsapp_rtp_header_dtx_size else whatsapp_rtp_header_size in
    let short_tag =
      (dtx && header_size == whatsapp_rtp_header_dtx_size)
      || (not dtx
          && (header_size == whatsapp_rtp_header_size
              && (is_opus_priming_payload opus_payload || leb (length opus_payload) 18))) in
    let tag_len = if short_tag then srtp_auth_tag_len_short else srtp_auth_tag_len in
    header_size + length opus_payload + tag_len
