-- ===== src/Media/AppData/Stream.antt =====
-- The two ends of the data stream of appdata.go. The mutexes make each method one step; the pause
-- between two copies is left out.
use meowcaller.Base.{
  ℕ, zero, suc, ◌+◌, Bool, true, false, not, Option, none, some, List, [], ◌∷◌, ◌++◌, leb, ◌==◌,
  if◌then◌else◌, length, Bytes, u16, u32, u64,
}
use meowcaller.Srtp.Crypto.{Crypto}
use meowcaller.Rtp.Header.{RtpHeader}
use meowcaller.Rtp.Payload.{rtp_payload_type_app_data}
use meowcaller.Session.Pipeline.{MediaPipeline, protect_rtp, unprotect_audio}
use meowcaller.Rtp.Header.Parser.{parse_rtp_header}
use meowcaller.Media.Classify.{
  stun_packet, rtcp_packet, rtp_packet, other_packet, unknown_payload, audio_payload, video_payload,
  app_data_payload, classify_relay_packet, classify_media_payload,
}
use meowcaller.Media.AppData.{
  Protowire, AppDataReaction, encode_app_data_reaction, decode_app_data_reactions,
}

abbrev pub app_data_retransmit_count : ℕ
app_data_retransmit_count = 10

abbrev pub app_data_timestamp_step : ℕ
app_data_timestamp_step = 50

-- The loop of `(*appDataReceiver).receive`: the first reaction behind the last transaction id.
unfoldable pub first_new : ℕ → List AppDataReaction → ℕ × Option AppDataReaction
first_new last [] = (last, none)
first_new last (r ∷ reactions) =
    let later = first_new last reactions in
    if leb r.transaction_id last then later else (r.transaction_id, some r)

-- `CallReaction`
pub record CallReaction : Type 0 where
  pub emoji : Bytes
  pub sender : Bytes
  pub removed : Bool

-- How `sendReaction` ends.
pub data SendResult : Type 0 where
  sent : SendResult
  invalid_utf8 : SendResult
  unavailable : SendResult
  protect_failed : SendResult
  send_failed : SendResult

-- A nil pipeline or `sendPacket` is `none` or `false`.
pub record AppDataSender : Type 0 where
  pub pipe : Option MediaPipeline
  pub ssrc : ℕ
  pub has_send_packet : Bool
  pub sequence_number : ℕ
  pub timestamp : ℕ
  pub transaction_id : ℕ

-- `newAppDataSender`
unfoldable pub new_app_data_sender : MediaPipeline → ℕ → AppDataSender
new_app_data_sender pipe ssrc = record {
  pipe = some pipe;
  ssrc = ssrc;
  has_send_packet = true;
  sequence_number = 0;
  timestamp = 0;
  transaction_id = 0;
}

-- `close`
unfoldable pub close : AppDataSender → AppDataSender
close s = record s { has_send_packet = false }

-- What `receive` does with the decoded reactions: an error is `none`.
unfoldable pub take_new : ℕ → Option (List AppDataReaction) → ℕ × Option (Option AppDataReaction)
take_new last none = (last, none)
take_new last (some reactions) = let (next, found) = first_new last reactions in (next, some found)

-- What `handleAppDataReaction` makes of it for a call with this peer.
unfoldable pub call_reaction :
    Bytes → Option (Option AppDataReaction) → Option (Option CallReaction)
call_reaction peer none = none
call_reaction peer (some none) = some none
call_reaction peer (some (some r)) =
    some (some (record { emoji = r.emoji; sender = peer; removed = length r.emoji == 0 }))

module _ (w : Protowire) where
  -- `receive`, with `lastTransactionID`.
  unfoldable pub receive : ℕ → Bytes → ℕ × Option (Option AppDataReaction)
  receive last payload = take_new last (decode_app_data_reactions w payload)

  -- What `handleAppDataReaction` gives to the callback of a call with this peer, if there is one.
  unfoldable pub handle_app_data_reaction : Bytes → ℕ → Bytes → ℕ × Option (Option CallReaction)
  handle_app_data_reaction peer last payload =
      let (next, got) = receive last payload in (next, call_reaction peer got)

module _ (c : Crypto) (w : Protowire) where
  -- The header of a copy, with the fields stepped.
  abbrev pub copy_header : AppDataSender → RtpHeader
  copy_header s = record {
    marker = false;
    payload_type = rtp_payload_type_app_data;
    sequence_number = u16 (s.sequence_number + 1);
    timestamp = u32 (s.timestamp + app_data_timestamp_step);
    ssrc = s.ssrc;
    extension_word = none;
    video_extension = none;
  }

  abbrev pub stepped : AppDataSender → MediaPipeline → AppDataSender
  stepped s pipe = record s {
    pipe = some pipe;
    sequence_number = u16 (s.sequence_number + 1);
    timestamp = u32 (s.timestamp + app_data_timestamp_step);
  }

  -- The end of a round of the loop: an error leaves it, and else the later rounds follow.
  unfoldable pub copy_outcome :
      (Bytes → Bool)
      → AppDataSender
      → (AppDataSender × SendResult) × List Bytes
      → Option Bytes
      → (AppDataSender × SendResult) × List Bytes
  copy_outcome send s more none = ((s, protect_failed), [])
  copy_outcome send s more (some packet) =
      if send packet then (more.0, packet ∷ more.1) else ((s, send_failed), [])

  -- The loop of `sendReaction` at copy `k`, with that many left: `send_packet` says of each copy
  -- whether it is sent without an error.
  unfoldable pub send_copies :
      (ℕ → Bytes → Bool)
      → ℕ
      → ℕ
      → Bytes
      → MediaPipeline
      → AppDataSender
      → (AppDataSender × SendResult) × List Bytes
  send_copies send_packet k zero payload pipe s = ((s, sent), [])
  send_copies send_packet k (suc left) payload pipe s =
      let (pipe', packet) = protect_rtp c pipe (copy_header s) payload in
      let more = send_copies send_packet (suc k) left payload pipe' (stepped s pipe') in
      copy_outcome (send_packet k) (stepped s pipe') more packet

  -- `sendReaction`
  unfoldable pub send_reaction :
      (ℕ → Bytes → Bool) → AppDataSender → Bytes → (AppDataSender × SendResult) × List Bytes
  send_reaction send_packet s emoji =
      let id = u64 (s.transaction_id + 1) in
      if not (w.utf8_valid emoji)
      then ((s, invalid_utf8), [])
      else if not s.has_send_packet
      then ((s, unavailable), [])
      else elim s.pipe [
        | none ↦ ((s, unavailable), [])
        | some pipe ↦
            send_copies send_packet 0 app_data_retransmit_count
              (encode_app_data_reaction w id emoji) pipe (record s { transaction_id = id })
      ]

  abbrev pub events : Option (Option CallReaction) → List CallReaction
  events none = []
  events (some none) = []
  events (some (some reaction)) = reaction ∷ []

  -- The app-data branch of the receive loop behind `UnprotectAudio`: the pipeline, the last
  -- transaction id, and what the call's callback is given.
  unfoldable pub app_data_opened :
      Bytes
      → ℕ
      → MediaPipeline × Option (RtpHeader × Bytes)
      → (MediaPipeline × ℕ) × List CallReaction
  app_data_opened peer last (pipe, none) = ((pipe, last), [])
  app_data_opened peer last (pipe, some (hdr, payload)) =
      let (next, handled) = handle_app_data_reaction w peer last payload in
      ((pipe, next), events handled)

  -- What a packet from the relay does to the data stream of a peer with SSRC `want`.
  unfoldable pub on_app_data :
      Bytes → ℕ → MediaPipeline → ℕ → Bytes → (MediaPipeline × ℕ) × List CallReaction
  on_app_data peer want pipe last packet = elim (classify_relay_packet packet) [
    | stun_packet ↦ ((pipe, last), [])
    | rtcp_packet ↦ ((pipe, last), [])
    | other_packet ↦ ((pipe, last), [])
    | rtp_packet ↦ elim (parse_rtp_header packet) [
      | none ↦ ((pipe, last), [])
      | some vh ↦ elim (classify_media_payload vh) [
        | app_data_payload ↦
            if vh.ssrc == want
            then app_data_opened peer last (unprotect_audio c pipe packet)
            else ((pipe, last), [])
        | video_payload ↦ ((pipe, last), [])
        | audio_payload ↦ ((pipe, last), [])
        | unknown_payload ↦ ((pipe, last), [])
      ]
    ]
  ]

  unfoldable pub receive_app_data :
      Bytes → ℕ → MediaPipeline → ℕ → List Bytes → (MediaPipeline × ℕ) × List CallReaction
  receive_app_data peer want pipe last [] = ((pipe, last), [])
  receive_app_data peer want pipe last (packet ∷ packets) =
      let (next, calls) = on_app_data peer want pipe last packet in
      let (after, more) = receive_app_data peer want next.0 next.1 packets in (after, calls ++ more)
