-- ===== src/Rtp/Stream.antt =====
-- The send-side sequencers of rtp/rtp.go: `RtpStream` for audio and `VideoRtpStream`. A sequence
-- number is a uint16 and a timestamp a uint32, and both wrap. `audioPacketIndex` is an int that
-- counts packets; it is not bounded here.
pub mod Audio
pub mod Video
mod Tests
use meowcaller.Base.{
  ℕ, ◌+◌, Bool, true, false, not, ◌&&◌, ◌||◌, Option, none, some, ◌==◌, if◌then◌else◌, Bytes, u16,
  u32,
}
use meowcaller.Srtp.Warp.{audio_piggyback_extension_for, warp_piggyback_start_packet}
use meowcaller.Rtp.Header.{VideoRtpExtension, RtpHeader}
use meowcaller.Rtp.Payload.{
  rtp_payload_type_opus, rtp_payload_type_h264, is_opus_dtx_payload, is_opus_priming_payload,
}

abbrev pub whatsapp_rtp_extension_dtx_word : ℕ
whatsapp_rtp_extension_dtx_word = 0x30010000

pub record RtpStream : Type 0 where
  pub ssrc : ℕ
  pub seq : ℕ
  pub timestamp : ℕ
  pub samples_per_packet : ℕ
  pub speech_started : Bool
  pub audio_packet_index : ℕ
  pub warp_piggyback : Bool

-- `NewRtpStream`
unfoldable pub new_rtp_stream : ℕ → ℕ → Bool → RtpStream
new_rtp_stream ssrc samples_per_packet warp_piggyback = record {
  ssrc = ssrc;
  seq = 1;
  timestamp = 0;
  samples_per_packet = samples_per_packet;
  speech_started = false;
  audio_packet_index = 0;
  warp_piggyback = warp_piggyback;
}

-- `resolveWarpExtension`
unfoldable pub resolve_warp_extension : RtpStream → Bool → RtpStream × Option ℕ
resolve_warp_extension s dtx =
    if dtx
    then (s, some whatsapp_rtp_extension_dtx_word)
    else if not s.warp_piggyback
    then (s, none)
    else (
      record s { audio_packet_index = s.audio_packet_index + 1 },
      audio_piggyback_extension_for s.audio_packet_index true warp_piggyback_start_packet,
    )

-- What `NextPacket` and `NextPreSpeechPacket` do behind the marker: the header, and the steps of
-- the sequence number and the timestamp.
emit : RtpStream → Bool → Bool → RtpStream × RtpHeader
emit s dtx marker =
    let (s', word) = resolve_warp_extension s dtx in
    (
      record s' { seq = u16 (s'.seq + 1); timestamp = u32 (s'.timestamp + s'.samples_per_packet) },
      record {
        marker = marker;
        payload_type = rtp_payload_type_opus;
        sequence_number = s'.seq;
        timestamp = s'.timestamp;
        ssrc = s'.ssrc;
        extension_word = word;
        video_extension = none;
      },
    )

-- `(*RtpStream).NextPacket`
unfoldable pub next_packet : RtpStream → Bytes → Bool → RtpStream × RtpHeader
unfolding emit resolve_warp_extension
next_packet s payload marker =
    let dtx = is_opus_dtx_payload payload in
    let speech = not dtx && not (is_opus_priming_payload payload) in
    let use_marker = marker || (speech && not s.speech_started) in
    emit (record s { speech_started = speech || s.speech_started }) dtx use_marker

-- `NextPreSpeechPacket`
unfoldable pub next_pre_speech_packet : RtpStream → RtpStream × RtpHeader
unfolding emit resolve_warp_extension
next_pre_speech_packet s = emit s false false

pub record VideoRtpStream : Type 0 where
  pub ssrc : ℕ
  pub seq : ℕ
  pub timestamp : ℕ
  pub last_sent_timestamp : ℕ
  pub sent : Bool
  pub ts_stride : ℕ
  pub transport_sequence : ℕ
  pub frame_number : ℕ
  pub first_packet : Bool

-- `NewVideoRtpStream`
unfoldable pub new_video_rtp_stream : ℕ → ℕ → VideoRtpStream
new_video_rtp_stream ssrc ts_stride = record {
  ssrc = ssrc;
  seq = 1;
  timestamp = 0;
  last_sent_timestamp = 0;
  sent = false;
  ts_stride = ts_stride;
  transport_sequence = 0;
  frame_number = 1;
  first_packet = true;
}

-- `RtpTimestamp`
unfoldable pub rtp_timestamp : VideoRtpStream → ℕ
rtp_timestamp s = if s.sent then s.last_sent_timestamp else s.timestamp

-- `SetTimestampStride`
unfoldable pub set_timestamp_stride : VideoRtpStream → ℕ → VideoRtpStream × Bool
set_timestamp_stride s ts_stride =
    if ts_stride == 0 then (s, false) else (record s { ts_stride = ts_stride }, true)

-- `(*VideoRtpStream).NextPacket`
unfoldable pub next_video_packet : VideoRtpStream → Bool → ℕ → VideoRtpStream × RtpHeader
next_video_packet s last_in_access_unit media_frame_info =
    let header : RtpHeader = record {
      marker = last_in_access_unit;
      payload_type = rtp_payload_type_h264;
      sequence_number = s.seq;
      timestamp = s.timestamp;
      ssrc = s.ssrc;
      extension_word = none;
      video_extension = some (record {
        media_frame_info = media_frame_info;
        frame_number = if s.first_packet then some s.frame_number else none;
        initial_bandwidth = 0;
        short_offset = 0;
        transport_sequence = s.transport_sequence;
      });
    } in
    let t = record s {
      last_sent_timestamp = s.timestamp;
      sent = true;
      seq = u16 (s.seq + 1);
      transport_sequence = u16 (s.transport_sequence + 1);
    } in
    if last_in_access_unit
    then (
      record t {
        timestamp = u32 (s.timestamp + s.ts_stride);
        frame_number = u16 (s.frame_number + 1);
        first_packet = true;
      },
      header,
    )
    else (record t { first_packet = false }, header)
