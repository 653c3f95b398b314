-- ===== src/Media/Receive.antt =====
-- The inbound video of the receive loop of engine_media.go: packets are unprotected and depacketized,
-- and the units are gathered until a marked packet ends the access unit. The logs, the diagnostics
-- and the counters that only they read are left out.
pub mod Steps
pub mod Units
use meowcaller.Base.{
  if◌then◌else◌, ℕ, Bool, false, ◌&&◌, Option, none, some, List, [], ◌∷◌, ◌++◌, ltb, ◌==◌, length,
  Bytes,
}
use meowcaller.Srtp.Crypto.{Crypto}
use meowcaller.Rtp.Header.{RtpHeader, VideoRtpExtension, display_orientation}
use meowcaller.Rtp.H264.{H264Depacketizer, depacketize}
use meowcaller.Rtp.Reception.{ReceptionStats, observe}
use meowcaller.Session.Pipeline.{MediaPipeline, unprotect_audio}
use meowcaller.Rtp.Header.Parser.{parse_rtp_header}
use meowcaller.Media.Classify.{
  stun_packet, rtcp_packet, rtp_packet, other_packet, unknown_payload, audio_payload, video_payload,
  app_data_payload, classify_relay_packet, classify_media_payload,
}
use meowcaller.Media.Video.{start_code}

-- What the call's sink is told.
pub data SinkCall : Type 0 where
  set_orientation : ℕ → SinkCall
  write_video : Bytes → SinkCall

-- The locals of the loop that inbound video reads and writes. An orientation of -1 is `none`.
pub record VideoReceiver : Type 0 where
  pub pipe : MediaPipeline
  pub reception : ReceptionStats
  pub depack : H264Depacketizer
  pub orientation : Option ℕ
  pub unit : Bytes

-- The loop over the units of one payload.
unfoldable pub gather : Bytes → List Bytes → Bytes
gather au [] = au
gather au (nalu ∷ nalus) = gather ((au ++ start_code) ++ nalu) nalus

abbrev same_orientation : Option ℕ → ℕ → Bool
same_orientation none n = false
same_orientation (some m) n = m == n

-- The update of the orientation by a header's video extension.
unfoldable pub orient : VideoReceiver → Option VideoRtpExtension → VideoReceiver × List SinkCall
orient r none = (r, [])
orient r (some e) =
    let now = display_orientation e in
    if same_orientation r.orientation now
    then (r, [])
    else (record r { orientation = some now }, set_orientation now ∷ [])

-- The units of a payload, and the access unit that a marker ends.
unfoldable pub receive_units : VideoReceiver → Bool → Bytes → VideoReceiver × List SinkCall
receive_units r marker payload =
    let (depack, nalus) = depacketize r.depack payload in
    let unit = gather r.unit nalus in
    if marker && ltb 0 (length unit)
    then (record r { depack = depack; unit = [] }, write_video unit ∷ [])
    else (record r { depack = depack; unit = unit }, [])

-- The video branch behind the unprotection, for header `vh`, at a time in milliseconds.
unfoldable pub receive_payload :
    VideoReceiver → RtpHeader → ℕ → Bytes → VideoReceiver × List SinkCall
receive_payload r vh now payload =
    let observed : VideoReceiver = record r {
      reception = observe r.reception vh.ssrc vh.sequence_number vh.timestamp now 90000;
    } in
    let (turned, calls) = orient observed vh.video_extension in
    let (next, frames) = receive_units turned vh.marker payload in (next, calls ++ frames)

-- What the video branch does with the result of `UnprotectAudio`.
unfoldable pub receive_opened :
    VideoReceiver
    → RtpHeader
    → ℕ
    → MediaPipeline × Option (RtpHeader × Bytes)
    → VideoReceiver × List SinkCall
receive_opened r vh now (pipe, none) = (record r { pipe = pipe }, [])
receive_opened r vh now (pipe, some (hdr, payload)) =
    receive_payload (record r { pipe = pipe }) vh now payload

module _ (c : Crypto) where
  unfoldable pub receive_video :
      VideoReceiver → RtpHeader → ℕ → Bytes → VideoReceiver × List SinkCall
  receive_video r vh now packet = receive_opened r vh now (unprotect_audio c r.pipe packet)

  -- What a packet from the relay does to inbound video: a packet of another kind nothing.
  unfoldable pub on_relay_packet : VideoReceiver → ℕ → Bytes → VideoReceiver × List SinkCall
  on_relay_packet r now packet = elim (classify_relay_packet packet) [
    | stun_packet ↦ (r, [])
    | rtcp_packet ↦ (r, [])
    | other_packet ↦ (r, [])
    | rtp_packet ↦ elim (parse_rtp_header packet) [
      | none ↦ (r, [])
      | some vh ↦ elim (classify_media_payload vh) [
        | video_payload ↦ receive_video r vh now packet
        | audio_payload ↦ (r, [])
        | app_data_payload ↦ (r, [])
        | unknown_payload ↦ (r, [])
      ]
    ]
  ]

  -- Packets that arrive one after the other, with their times.
  unfoldable pub receive_all : VideoReceiver → List (ℕ × Bytes) → VideoReceiver × List SinkCall
  receive_all r [] = (r, [])
  receive_all r ((now, packet) ∷ packets) =
      let (next, calls) = on_relay_packet r now packet in
      let (last, more) = receive_all next packets in (last, calls ++ more)
