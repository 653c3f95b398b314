-- ===== src/Session/Pipeline.antt =====
-- The media pipeline of session.go: the outbound (protect) and inbound (unprotect) path of one RTP
-- stream. A method returns the new pipeline and its result; an error is `none`. The counters are
-- uint32 and wrap. The locks make each method one step.
pub mod Packets
pub mod Delivery
pub mod EndToEnd
pub mod Nonces
mod Tests
use meowcaller.Base.{
  ℕ, ◌+◌, ◌-◌, Bool, true, false, Option, none, some, ◌++◌, ltb, leb, if◌then◌else◌, ◌>>=◌, length,
  take, drop, Bytes, u32,
}
use meowcaller.Srtp.Crypto.{Crypto}
use meowcaller.Srtp.Roc.{
  RocTracker, RecvRocTracker, new_roc_tracker, new_recv_roc_tracker, advance, guess_roc,
}
use meowcaller.Srtp.Warp.{append_warp_mi_tag, warp_mi_tag_len}
use meowcaller.Srtp.E2e.{E2eSrtpKeys, derive_e2e_keys, crypt_payload}
use meowcaller.Rtp.Header.{RtpHeader, encode_rtp_header, rtp_header_byte_length}
use meowcaller.Rtp.Header.Parser.{parse_rtp_header}
use meowcaller.Rtp.Rtcp.{RtcpSenderStats}
use meowcaller.Rtp.Stream.{RtpStream, new_rtp_stream, next_packet}
use meowcaller.Util.Participant.{format_participant_id}

pub record MediaPipeline : Type 0 where
  pub send_keys : E2eSrtpKeys
  pub recv_keys : E2eSrtpKeys
  pub tag_len : ℕ
  pub stream : RtpStream
  pub send_roc : RocTracker
  pub recv_roc : RecvRocTracker
  pub packets_sent : ℕ
  pub octets_sent : ℕ
  pub rtp_timestamp : ℕ

-- `SenderStats`
unfoldable pub sender_stats : MediaPipeline → RtcpSenderStats
sender_stats p = record {
  packets_sent = p.packets_sent;
  octets_sent = p.octets_sent;
  rtp_timestamp = p.rtp_timestamp;
}

module _ (c : Crypto) where
  -- `NewMediaPipeline`
  unfoldable pub new_media_pipeline : Bytes → Bytes → Bytes → ℕ → ℕ → Option MediaPipeline
  new_media_pipeline call_key self_jid peer_jid ssrc samples_per_packet = do
    send_keys ← derive_e2e_keys c call_key (format_participant_id self_jid)
    recv_keys ← derive_e2e_keys c call_key (format_participant_id peer_jid)
    some (record {
      send_keys = send_keys;
      recv_keys = recv_keys;
      tag_len = warp_mi_tag_len;
      stream = new_rtp_stream ssrc samples_per_packet false;
      send_roc = new_roc_tracker;
      recv_roc = new_recv_roc_tracker;
      packets_sent = 0;
      octets_sent = 0;
      rtp_timestamp = 0;
    })

  -- `RekeyRecv`; the flag is that no error is returned.
  unfoldable pub rekey_recv : MediaPipeline → Bytes → Bytes → MediaPipeline × Bool
  rekey_recv p call_key peer_jid =
      elim (derive_e2e_keys c call_key (format_participant_id peer_jid)) [
        | none ↦ (p, false)
        | some keys ↦ (record p { recv_keys = keys; recv_roc = new_recv_roc_tracker }, true)
      ]

  -- `ProtectRTP`
  unfoldable pub protect_rtp : MediaPipeline → RtpHeader → Bytes → MediaPipeline × Option Bytes
  protect_rtp p header payload =
      let (tracker, roc) = advance p.send_roc header.sequence_number in
      elim (crypt_payload c p.send_keys header.ssrc header.sequence_number roc payload) [
        | none ↦ (record p { send_roc = tracker }, none)
        | some encrypted ↦ (
          record p {
            send_roc = tracker;
            packets_sent = u32 (p.packets_sent + 1);
            octets_sent = u32 (p.octets_sent + u32 (length payload));
            rtp_timestamp = header.timestamp;
          },
          some (
              append_warp_mi_tag c p.send_keys.auth_key (encode_rtp_header header ++ encrypted) roc
                p.tag_len),
        )
      ]

  -- `ProtectAudio`: the sequencer's header, and then the steps of `ProtectRTP`.
  unfoldable pub protect_audio : MediaPipeline → Bytes → MediaPipeline × Option Bytes
  protect_audio p opus_payload =
      let (stream, header) = next_packet p.stream opus_payload false in
      protect_rtp (record p { stream = stream }) header opus_payload

  -- What `UnprotectAudio` does behind its checks.
  unfoldable pub open_payload :
      MediaPipeline → RtpHeader → Bytes → MediaPipeline × Option (RtpHeader × Bytes)
  open_payload p header encrypted =
      let (tracker, roc) = guess_roc p.recv_roc header.sequence_number in
      (
        record p { recv_roc = tracker },
        (crypt_payload c p.recv_keys header.ssrc header.sequence_number roc encrypted >>= λ plain.
            some (header, plain)),
      )

  -- `UnprotectAudio`
  unfoldable pub unprotect_audio :
      MediaPipeline → Bytes → MediaPipeline × Option (RtpHeader × Bytes)
  unprotect_audio p packet =
      let without_tag = take (length packet - p.tag_len) packet in
      if ltb (length packet) (12 + p.tag_len)
      then (p, none)
      else elim (parse_rtp_header without_tag) [
        | none ↦ (p, none)
        | some header ↦ elim (rtp_header_byte_length without_tag) [
          | none ↦ (p, none)
          | some header_len ↦
              if leb (length without_tag) header_len
              then (p, none)
              else open_payload p header (drop header_len without_tag)
        ]
      ]
