-- ===== src/Rtp/Rtcp.antt =====
-- rtp/rtcp.go: RTCP packets, recognised, parsed and built. A failed parse is `none`. The fixed bits of
-- a first byte and a flag of it have no bit in common, so `|` is a sum.
pub mod Reports
mod Tests
use meowcaller.Base.{
  ℕ, zero, suc, ◌+◌, ◌*◌, ◌/◌, ◌%◌, Bool, false, not, ◌&&◌, ◌||◌, Option, none, some, [], ◌∷◌, ◌++◌,
  ltb, leb, ◌==◌, if◌then◌else◌, length, take, drop, replicate, Bytes, u8, u32, shr, bit, byte_at,
  be32, read_be16, read_be32,
}
use meowcaller.Rtp.Reception.{ReceptionReport}

abbrev pub rtcp_pt_sr : ℕ
rtcp_pt_sr = 200

abbrev pub rtcp_pt_sdes : ℕ
rtcp_pt_sdes = 202

abbrev pub rtcp_pt_psfb : ℕ
rtcp_pt_psfb = 206

abbrev pub rtcp_pt_wa_compact : ℕ
rtcp_pt_wa_compact = 208

abbrev pub rtcp_pt_wa_compact2 : ℕ
rtcp_pt_wa_compact2 = 209

abbrev pub rtcp_header_len : ℕ
rtcp_header_len = 8

abbrev pub ntp_unix_offset_secs : ℕ
ntp_unix_offset_secs = 2208988800

-- `IsRtcpPacket`
unfoldable pub is_rtcp_packet : Bytes → Bool
is_rtcp_packet xs =
    not (ltb (length xs) rtcp_header_len)
    && shr (byte_at xs 0) 6 % 4 == 2
    && leb 192 (byte_at xs 1)
    && leb (byte_at xs 1) 223

-- `RtcpPayloadType`
unfoldable pub rtcp_payload_type : Bytes → Option ℕ
rtcp_payload_type xs = if is_rtcp_packet xs then some (byte_at xs 1) else none

-- `ParseRtcpSenderSsrc`
unfoldable pub parse_rtcp_sender_ssrc : Bytes → Option ℕ
parse_rtcp_sender_ssrc xs =
    if ltb (length xs) 8 || not (shr (byte_at xs 0) 6 % 4 == 2) then none else some (read_be32 xs 4)

-- `RtcpSenderStats`
pub record RtcpSenderStats : Type 0 where
  pub packets_sent : ℕ
  pub octets_sent : ℕ
  pub rtp_timestamp : ℕ

-- The size of the packet at an offset of a compound packet, by its length field.
abbrev pub packet_len : Bytes → ℕ
packet_len rest = (read_be16 rest 2 + 1) * 4

-- The loop of `ParseSenderReportTiming`, at what is left behind `offset`. Each round takes four
-- bytes at least, so the size is enough fuel.
unfoldable pub sender_report_timing : ℕ → Bytes → Option (ℕ × ℕ × ℕ)
sender_report_timing zero rest = none
sender_report_timing (suc fuel) rest =
    let n = packet_len rest in
    let more = sender_report_timing fuel (drop n rest) in
    if leb (length rest) 0
    then none
    else if ltb (length rest) 4
    then none
    else if ltb n 4 || ltb (length rest) n
    then none
    else if byte_at rest 1 == rtcp_pt_sr && leb 28 n
    then some (read_be32 rest 4, read_be32 rest 8, read_be32 rest 12)
    else more

-- `ParseSenderReportTiming`
unfoldable pub parse_sender_report_timing : Bytes → Option (ℕ × ℕ × ℕ)
parse_sender_report_timing xs = sender_report_timing (length xs) xs

-- `BuildCompactRtcp208`
unfoldable pub build_compact_rtcp208 : ℕ → ℕ → Bytes
build_compact_rtcp208 local_ssrc remote_ssrc =
    0x81 ∷ rtcp_pt_wa_compact ∷ 0 ∷ 2 ∷ (be32 local_ssrc ++ be32 remote_ssrc)

-- `BuildCompactRtcp209`
unfoldable pub build_compact_rtcp209 : ℕ → Bytes
build_compact_rtcp209 local_ssrc = 0x81 ∷ rtcp_pt_wa_compact2 ∷ 0 ∷ 1 ∷ be32 local_ssrc

-- The NTP timestamp of a wall-clock time. The float64 product of the fraction is within 2 ^ -20 of
-- `ms * 2 ^ 32 / 1000`, which is an integer or at least 1/125 away from one, and exact where it is
-- an integer; so its integer part is the quotient.
unfoldable pub ntp_sec : ℕ → ℕ
ntp_sec now_ms = u32 (now_ms / 1000 + ntp_unix_offset_secs)

unfoldable pub ntp_frac : ℕ → ℕ
ntp_frac now_ms = now_ms % 1000 * 4294967296 / 1000

-- What `BuildSenderReport` puts behind the first four bytes.
unfoldable pub sender_info : ℕ → RtcpSenderStats → ℕ → Bytes
sender_info local_ssrc stats now_ms =
    be32 local_ssrc
    ++ (be32 (ntp_sec now_ms)
        ++ (be32 (ntp_frac now_ms)
            ++ (be32 stats.rtp_timestamp ++ (be32 stats.packets_sent ++ be32 stats.octets_sent))))

-- `BuildSenderReport`
unfoldable pub build_sender_report : ℕ → RtcpSenderStats → ℕ → Bytes
build_sender_report local_ssrc stats now_ms =
    0x80 ∷ rtcp_pt_sr ∷ 0 ∷ 6 ∷ sender_info local_ssrc stats now_ms

-- `BuildSourceDescription`, for an 18-byte name: the packet ends in four zero bytes.
unfoldable pub build_source_description : ℕ → Bytes → Bool → Bytes
build_source_description local_ssrc cname profile_extension =
    (0x81 + (if profile_extension then 0x10 else 0))
    ∷ rtcp_pt_sdes
    ∷ 0
    ∷ 7
    ∷ (be32 local_ssrc ++ (1 ∷ 18 ∷ (cname ++ (0 ∷ 0 ∷ 0 ∷ 0 ∷ []))))

-- What `appendReceptionReport` appends.
unfoldable pub reception_block : ReceptionReport → Bytes
reception_block r =
    be32 r.ssrc
    ++ (r.fraction_lost
        ∷ u8 (shr r.cumulative_lost 16)
        ∷ u8 (shr r.cumulative_lost 8)
        ∷ u8 r.cumulative_lost
        ∷ (be32 r.extended_highest_sequence
            ++ (be32 r.jitter
                ++ (be32 r.last_sender_report ++ be32 r.delay_since_last_sender_report))))

-- `BuildSenderReportWithSdesAndReception`; a nil report is `none`. With a report the packet has
-- 28 + 48 bytes, so that `len(out)/4-1` is 18.
unfoldable pub build_report :
    ℕ → RtcpSenderStats → ℕ → Bytes → Option ReceptionReport → Bool → Bytes
build_report local_ssrc stats now_ms cname none profile_extension =
    (0x80 + (if profile_extension then 0x10 else 0))
    ∷ rtcp_pt_sr
    ∷ 0
    ∷ 6
    ∷ (sender_info local_ssrc stats now_ms
        ++ build_source_description local_ssrc cname profile_extension)
build_report local_ssrc stats now_ms cname (some r) profile_extension =
    (0x80 + (if profile_extension then 0x10 else 0) + 1)
    ∷ rtcp_pt_sr
    ∷ 0
    ∷ 18
    ∷ (sender_info local_ssrc stats now_ms
        ++ (reception_block r
            ++ (replicate 24 0 ++ build_source_description local_ssrc cname profile_extension)))

-- The loop of `RtcpRequestsKeyframe` over the entries of a FIR.
unfoldable pub fir_names : ℕ → Bytes → ℕ → Bool
fir_names zero fci ssrc = false
fir_names (suc fuel) fci ssrc =
    let more = fir_names fuel (drop 8 fci) ssrc in
    leb 8 (length fci) && (read_be32 fci 0 == ssrc || more)

-- Whether one feedback packet asks for a key frame.
unfoldable pub feedback_requests : Bytes → ℕ → Bool
feedback_requests packet ssrc =
    let raw_fmt = byte_at packet 0 % 32 in
    let fmt = if bit raw_fmt 4 == 1 then raw_fmt % 16 else raw_fmt in
    let media_ssrc = read_be32 packet 8 in
    (byte_at packet 1 == rtcp_pt_psfb && leb 12 (length packet))
    && ((fmt == 1 && media_ssrc == ssrc)
        || (fmt == 4 && (media_ssrc == ssrc || fir_names (length packet) (drop 12 packet) ssrc)))

-- The loop of `RtcpRequestsKeyframe`, at what is left behind `offset`; each round takes eight bytes
-- at least.
unfoldable pub keyframe_from : ℕ → Bytes → ℕ → Bool
keyframe_from zero rest ssrc = false
keyframe_from (suc fuel) rest ssrc =
    let n = packet_len rest in
    let more = keyframe_from fuel (drop n rest) ssrc in
    if ltb (length rest) 4
    then false
    else if not (shr (byte_at rest 0) 6 % 4 == 2)
    then false
    else if ltb n 8 || ltb (length rest) n
    then false
    else feedback_requests (take n rest) ssrc || more

-- `RtcpRequestsKeyframe`
unfoldable pub rtcp_requests_keyframe : Bytes → ℕ → Bool
rtcp_requests_keyframe xs ssrc = keyframe_from (length xs) xs ssrc
