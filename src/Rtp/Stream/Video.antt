-- ===== src/Rtp/Stream/Video.antt =====
-- The packets of one access unit of `VideoRtpStream`.
use meowcaller.Base.{
  ℕ, zero, suc, ◌+◌, ◌≤◌, ◌≡◌, true, false, Option, none, some, List, [], ◌∷◌, arith, ◌==◌,
  if◌then◌else◌, get_elem?, IsU16, IsU32, u16, u32,
}
use meowcaller.Rtp.Header.{RtpHeader}
use meowcaller.Rtp.Payload.{rtp_payload_type_h264}
use meowcaller.Rtp.Stream.{VideoRtpStream, next_video_packet}

-- The headers of one access unit of `n + 1` payloads: the last one is marked, as the sender does.
unfoldable pub access_unit : ℕ → ℕ → VideoRtpStream → VideoRtpStream × List RtpHeader
access_unit zero info s = let (t, header) = next_video_packet s true info in (t, header ∷ [])
access_unit (suc n) info s =
    let (t, header) = next_video_packet s false info in
    let (u, headers) = access_unit n info t in (u, header ∷ headers)

pub record IsVideoStream (s : VideoRtpStream) : Type 0 where
  pub seq_bound : IsU16 s.seq
  pub timestamp_bound : IsU32 s.timestamp
  pub transport_bound : IsU16 s.transport_sequence
  pub frame_bound : IsU16 s.frame_number

-- The header of payload `k`, the last one being `n`.
abbrev pub unit_header : VideoRtpStream → ℕ → Option ℕ → ℕ → ℕ → RtpHeader
unit_header s info frame n k = record {
  marker = k == n;
  payload_type = rtp_payload_type_h264;
  sequence_number = u16 (s.seq + k);
  timestamp = s.timestamp;
  ssrc = s.ssrc;
  extension_word = none;
  video_extension = some (record {
    media_frame_info = info;
    frame_number = if k == 0 then frame else none;
    initial_bandwidth = 0;
    short_offset = 0;
    transport_sequence = u16 (s.transport_sequence + k);
  });
}

abbrev first_frame_number : VideoRtpStream → Option ℕ
first_frame_number s = if s.first_packet then some s.frame_number else none

-- The stream behind an access unit.
abbrev pub after_unit : VideoRtpStream → ℕ → VideoRtpStream
after_unit s n = record s {
  seq = u16 (s.seq + (n + 1));
  timestamp = u32 (s.timestamp + s.ts_stride);
  last_sent_timestamp = s.timestamp;
  sent = true;
  transport_sequence = u16 (s.transport_sequence + (n + 1));
  frame_number = u16 (s.frame_number + 1);
  first_packet = true;
}

-- On a video stream whose fields fit their widths, after an access unit of n + 1 packets both
-- sequence numbers have moved on by n + 1, the timestamp by one stride and the frame number by
-- one, with their wraps, and the next packet is a first one.
pub access_unit-after :
    (n info : ℕ) (s : VideoRtpStream) → IsVideoStream s → (access_unit n info s).0 ≡ after_unit s n
unfolding access_unit next_video_packet
access_unit-after zero info s v = ground arith
access_unit-after (suc n) info s v =
    ground (arith, access_unit-after n info (next_video_packet s false info).0 (ground arith))

-- On a video stream whose fields fit their widths, every packet of an access unit has its
-- timestamp, the last one alone is marked, the frame number is on the first one, if the stream is
-- at the start of an access unit, and on no other, and the sequence number and the transport
-- sequence number go up by one from packet to packet.
pub access_unit-headers :
    (n info : ℕ) (s : VideoRtpStream) (k : ℕ)
    → IsVideoStream s
    → k ≤ n
    → get_elem? (access_unit n info s).1 k ≡ some (unit_header s info (first_frame_number s) n k)
unfolding access_unit next_video_packet
access_unit-headers zero info s zero v h = ground arith
access_unit-headers zero info s (suc k) v h = absurd (omega arith)
access_unit-headers (suc n) info s zero v h = ground arith
access_unit-headers (suc n) info s (suc k) v h = ground (
  arith,
  access_unit-headers n info (next_video_packet s false info).0 k (ground arith) (omega arith),
)
