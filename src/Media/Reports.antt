-- ===== src/Media/Reports.antt =====
-- The SRTCP ends of engine_media.go: a sender of reports and the receiver of the peer's. The mutexes
-- make each method one step. The random bytes of a name are an argument.
pub mod Delivery
mod Tests
use meowcaller.Base.{
  if◌then◌else◌, ℕ, zero, suc, ◌+◌, ◌-◌, ◌/◌, ◌%◌, Bool, true, false, Option, none, some, [], ◌∷◌,
  ◌++◌, ltb, ◌==◌, ◌>>=◌, take, drop, Bytes, u32, byte_at,
}
use meowcaller.Srtp.Crypto.{Crypto}
use meowcaller.Srtp.E2e.{E2eSrtpKeys, derive_e2e_srtcp_keys, protect_srtcp, unprotect_srtcp}
use meowcaller.Rtp.Rtcp.{RtcpSenderStats, build_report, parse_rtcp_sender_ssrc}
use meowcaller.Rtp.Reception.{ReceptionReport}
use meowcaller.Util.Participant.{format_participant_id}

-- `hexChars[n]` of `BuildWhatsappRtcpCname`, for `n < 16`.
abbrev pub hex_char : ℕ → ℕ
hex_char n = if ltb n 10 then b'0' + n else b'a' + (n - 10)

-- The loop of `BuildWhatsappRtcpCname`: the digits of the nibbles from one on, that many.
unfoldable pub hex_digits : Bytes → ℕ → ℕ → Bytes
hex_digits entropy nibble zero = []
hex_digits entropy nibble (suc count) =
    let b = byte_at entropy (6 + nibble / 2) in
    hex_char (if nibble % 2 == 0 then b / 16 else b % 16) ∷ hex_digits entropy (suc nibble) count

-- `BuildWhatsappRtcpCname`
unfoldable pub build_whatsapp_rtcp_cname : Bytes → Bytes
build_whatsapp_rtcp_cname entropy =
    let random_hex = hex_digits entropy 0 11 in
    take 5 random_hex
    ++ (b'@' ∷ b'p' ∷ b'j' ∷ (drop 5 random_hex ++ (b'.' ∷ b'o' ∷ b'r' ∷ b'g' ∷ [])))

pub record MediaSrtcpSender : Type 0 where
  pub keys : E2eSrtpKeys
  pub ssrc : ℕ
  pub cname : Bytes
  pub profile : Bool
  pub index : ℕ

module _ (c : Crypto) where
  -- `newMediaSrtcpReceiver`: a receiver is its keys.
  unfoldable pub new_media_srtcp_receiver : Bytes → Bytes → Option E2eSrtpKeys
  new_media_srtcp_receiver call_key peer_lid =
      derive_e2e_srtcp_keys c call_key (format_participant_id peer_lid)

  -- `rekey`: the keys, and that no error is returned.
  unfoldable pub rekey : E2eSrtpKeys → Bytes → Bytes → E2eSrtpKeys × Bool
  rekey keys call_key peer_lid = elim (new_media_srtcp_receiver call_key peer_lid) [
    | none ↦ (keys, false)
    | some keys' ↦ (keys', true)
  ]

  -- The receive loop's steps for an RTCP packet: `ParseRtcpSenderSsrc`, and `unprotect`.
  unfoldable pub receive_report : E2eSrtpKeys → Bytes → Option (Bytes × ℕ)
  receive_report keys packet =
      parse_rtcp_sender_ssrc packet >>= λ ssrc. unprotect_srtcp c keys ssrc packet

  -- `newMediaSrtcpSender`
  unfoldable pub new_media_srtcp_sender : Bytes → Bytes → ℕ → Bool → Bytes → Option MediaSrtcpSender
  new_media_srtcp_sender call_key self_lid ssrc profile entropy =
      derive_e2e_srtcp_keys c call_key (format_participant_id self_lid) >>= λ keys. some (record {
        keys = keys;
        ssrc = ssrc;
        cname = build_whatsapp_rtcp_cname entropy;
        profile = profile;
        index = 1;
      })

  abbrev pub next_index : MediaSrtcpSender → Option Bytes → MediaSrtcpSender
  next_index s none = s
  next_index s (some packet) = record s { index = u32 (s.index + 1) }

  -- `senderReport`
  unfoldable pub sender_report :
      MediaSrtcpSender
      → RtcpSenderStats
      → ℕ
      → Option ReceptionReport
      → MediaSrtcpSender × Option Bytes
  sender_report s stats now_ms report =
      let plain = build_report s.ssrc stats now_ms s.cname report s.profile in
      let packet = protect_srtcp c s.keys s.ssrc s.index plain in (next_index s packet, packet)
