-- ===== src/Media/Classify.antt =====
-- Which kind a packet from the relay has: ClassifyRelayPacket of relay/relay.go and
-- classifyMediaPayload of appdata.go.
pub mod Wire
mod Tests
use meowcaller.Base.{if◌then◌else◌, ◌/◌, ◌&&◌, ltb, leb, ◌==◌, length, Bytes, byte_at}
use meowcaller.Rtp.Header.{RtpHeader}
use meowcaller.Rtp.Payload.{
  rtp_payload_type_app_data, rtp_payload_type_h264, is_whatsapp_opus_rtp_payload,
}

-- `RelayPacketKind`
pub data RelayPacketKind : Type 0 where
  stun_packet : RelayPacketKind
  rtcp_packet : RelayPacketKind
  rtp_packet : RelayPacketKind
  other_packet : RelayPacketKind

-- `ClassifyRelayPacket`; `first & 0xc0 != 0` is `64 ≤ first` for a byte.
unfoldable pub classify_relay_packet : Bytes → RelayPacketKind
classify_relay_packet xs =
    let first = byte_at xs 0 in
    let second = byte_at xs 1 in
    if ltb (length xs) 2
    then other_packet
    else if leb 64 first
    then (if leb 192 second && leb second 223
        then rtcp_packet
        else if first / 64 == 2
        then rtp_packet
        else other_packet)
    else stun_packet

-- `mediaPayloadKind`
pub data MediaPayloadKind : Type 0 where
  unknown_payload : MediaPayloadKind
  audio_payload : MediaPayloadKind
  video_payload : MediaPayloadKind
  app_data_payload : MediaPayloadKind

-- `classifyMediaPayload`
unfoldable pub classify_media_payload : RtpHeader → MediaPayloadKind
classify_media_payload h =
    if h.payload_type == rtp_payload_type_app_data
    then app_data_payload
    else if h.payload_type == rtp_payload_type_h264
    then video_payload
    else if is_whatsapp_opus_rtp_payload h.payload_type
    then audio_payload
    else unknown_payload
