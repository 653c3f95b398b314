-- ===== src/Media/Video.antt =====
-- The video sender of engine_media.go: access units become protected RTP packets, behind gates that
-- hold them back until a keyframe. The logs and the diagnostics are left out, and with them the call
-- id, which they alone read.
pub mod Gates
pub mod Payloads
pub mod Packets
pub mod Delivery
pub mod Stride
mod Tests
use meowcaller.Base.{
  if◌then◌else◌, ℕ, suc, ◌+◌, ◌-◌, ◌*◌, ◌/◌, ◌%◌, ◌^◌, Bool, true, false, not, ◌&&◌, ◌||◌, Option,
  none, some, List, [], ◌∷◌, ◌++◌, ltb, ◌==◌, length, Bytes, u32, u64, byte_at,
}
use meowcaller.Srtp.Crypto.{Crypto}
use meowcaller.Rtp.H264.{split_annex_b, package_h264_nalu, au_has_idr, type_bits}
use meowcaller.Rtp.Stream.{VideoRtpStream, next_video_packet, set_timestamp_stride}
use meowcaller.Session.Pipeline.{MediaPipeline, protect_rtp}

-- `90000 / 30`
abbrev pub default_video_rtp_step_samples : ℕ
default_video_rtp_step_samples = 3000

-- `rtp.VideoMediaFrameInfoIDR` and `rtp.VideoMediaFrameInfoDelta`
abbrev pub video_media_frame_info_idr : ℕ
video_media_frame_info_idr = 0x08

abbrev pub video_media_frame_info_delta : ℕ
video_media_frame_info_delta = 0x20

-- A `time.Duration`: an int64 of nanoseconds. `negative n` is `-(n + 1)`.
pub data Duration : Type 0 where
  nanoseconds : ℕ → Duration
  negative : ℕ → Duration

-- `uint32(x / int64(time.Second))` for the int64 of which `x` is the two's complement: the division
-- rounds toward zero.
unfoldable pub seconds_u32 : ℕ → ℕ
seconds_u32 x =
    if ltb x (2 ^ 63) then u32 (x / 1000000000) else u32 (2 ^ 64 - (2 ^ 64 - x) / 1000000000)

-- `videoRtpDurationSamples`; the product and the sum wrap as int64.
unfoldable pub video_rtp_duration_samples : Duration → ℕ
video_rtp_duration_samples (negative n) = default_video_rtp_step_samples
video_rtp_duration_samples (nanoseconds n) =
    let samples = seconds_u32 ((n * 90000 + 500000000) % 2 ^ 64) in
    if n == 0
    then default_video_rtp_step_samples
    else if samples == 0
    then default_video_rtp_step_samples
    else samples

pub record VideoSender : Type 0 where
  pub pipe : MediaPipeline
  pub stream : VideoRtpStream
  pub ssrc : ℕ
  pub frame : ℕ
  pub logged : Bool
  pub active : Bool
  pub send_gated : Bool
  pub keyframe_required : Bool

abbrev pub start_code : Bytes
start_code = 0 ∷ 0 ∷ 0 ∷ 1 ∷ []

-- The loop that joins the units of an access unit; empty ones and delimiters (type 9) are left out.
unfoldable pub pack_units : Bytes → List Bytes → Bytes
pack_units packed [] = packed
pack_units packed (n ∷ nalus) =
    let joined = (if ltb 0 (length packed) then packed ++ start_code else packed) ++ n in
    let skipped = length n == 0 || type_bits (byte_at n 0) == 9 in
    pack_units (if skipped then packed else joined) nalus

abbrev pub packed_access_unit : Bytes → Bytes
packed_access_unit au = pack_units [] (split_annex_b au)

abbrev pub keep_packet : Option Bytes → List Bytes → List Bytes
keep_packet none packets = packets
keep_packet (some packet) packets = packet ∷ packets

-- `enable`
unfoldable pub enable : VideoSender → Bool → VideoSender
enable vs send_gated =
    let needs_recovery = not vs.active || (vs.send_gated && not send_gated) in
    record vs {
      active = true;
      send_gated = send_gated;
      keyframe_required = vs.keyframe_required || needs_recovery;
    }

-- `disable`
unfoldable pub disable : VideoSender → VideoSender
disable vs = record vs { active = false; send_gated = false; keyframe_required = true }

-- `requestKeyframe`
unfoldable pub request_keyframe : VideoSender → VideoSender
request_keyframe vs = record vs { keyframe_required = true }

-- The loop of `send` over the packets: the channel says of its `k`-th packet whether it takes it.
-- The packets it took, and whether it took all.
unfoldable pub send_packets : (ℕ → Bytes → Bool) → ℕ → List Bytes → List Bytes × Bool
send_packets ch k [] = ([], true)
send_packets ch k (packet ∷ packets) =
    let (sent, all) = send_packets ch (suc k) packets in
    if ch k packet then (packet ∷ sent, all) else ([], false)

module _ (c : Crypto) where
  -- The loop of `protectAccessUnitLocked` over the payloads: one that fails is left out.
  unfoldable pub protect_payloads :
      MediaPipeline
      → VideoRtpStream
      → ℕ
      → List Bytes
      → (MediaPipeline × VideoRtpStream) × List Bytes
  protect_payloads p s info [] = ((p, s), [])
  protect_payloads p s info (payload ∷ payloads) =
      let (s', header) = next_video_packet s (length payloads == 0) info in
      let (p', packet) = protect_rtp c p header payload in
      let (after, packets) = protect_payloads p' s' info payloads in
      (after, keep_packet packet packets)

  -- What `protectAccessUnitLocked` does with the payloads of an access unit.
  unfoldable pub send_payloads :
      VideoSender → Duration → Bool → List Bytes → VideoSender × List Bytes
  send_payloads vs duration idr payloads =
      let stream = (set_timestamp_stride vs.stream (video_rtp_duration_samples duration)).0 in
      let info = if idr then video_media_frame_info_idr else video_media_frame_info_delta in
      let (after, packets) = protect_payloads vs.pipe stream info payloads in
      (
        record vs {
          pipe = after.0;
          stream = after.1;
          keyframe_required = vs.keyframe_required && not (ltb 0 (length packets) && idr);
        },
        packets,
      )

  -- `protectAccessUnitLocked`
  unfoldable pub protect_access_unit : VideoSender → Bytes → Duration → VideoSender × List Bytes
  protect_access_unit vs au duration =
      let idr = au_has_idr au in
      let packed = packed_access_unit au in
      if not vs.active || vs.send_gated
      then (vs, [])
      else if vs.keyframe_required && not idr
      then (vs, [])
      else if length packed == 0
      then (vs, [])
      else send_payloads vs duration idr (package_h264_nalu packed)

  -- The end of `send`: what was sent of the packets. An error leaves the count of frames.
  unfoldable pub transmit : VideoSender → (ℕ → Bytes → Bool) → List Bytes → VideoSender × List Bytes
  transmit vs ch packets =
      let (sent, all) = send_packets ch 0 packets in
      (
        (if all && ltb 0 (length packets)
            then record vs { frame = u64 (vs.frame + 1); logged = true }
            else vs),
        sent,
      )

  -- `send` to the relay's channel, if there is one: the packets that the channel took.
  unfoldable pub send :
      VideoSender → Option (ℕ → Bytes → Bool) → Bytes → Duration → VideoSender × List Bytes
  send vs none au duration = (vs, [])
  send vs (some ch) au duration =
      let (protected_sender, packets) = protect_access_unit vs au duration in
      if length au == 0 then (vs, []) else transmit protected_sender ch packets
