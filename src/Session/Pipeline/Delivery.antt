-- ===== src/Session/Pipeline/Delivery.antt =====
-- Two pipelines of one call: what one side sends, the other side receives.
use meowcaller.Base.{
  ℕ, suc, ◌+◌, ◌<◌, max, ◌≡◌, refl, ap, ◌∙◌, ◌⊎◌, inl, inr, false, Option, none, some, List, [],
  ◌∷◌, ◌++◌, map, arith, length, Bytes, IsU32, u32,
}
use meowcaller.Srtp.Crypto.{Crypto}
use meowcaller.Srtp.Roc.{RocTracker, advance, guess_roc}
use meowcaller.Srtp.Roc.Exact.{
  IsIndex, seq_of, roc_of, SentUpTo, advance-SentUpTo, highest, IsTracking, guess_roc-exact,
}
use meowcaller.Srtp.Warp.{append_warp_mi_tag}
use meowcaller.Srtp.E2e.{E2eSrtpKeys, crypt_payload}
use meowcaller.Srtp.E2e.Crypt.{IsKeys, crypt-crypt}
use meowcaller.Rtp.Header.{RtpHeader, encode_rtp_header}
use meowcaller.Rtp.Stream.{next_packet}
use meowcaller.Rtp.Stream.Audio.{IsStream, next_packet-fields, next_packet-IsHeader}
use meowcaller.Session.Pipeline.{MediaPipeline, protect_rtp, protect_audio, unprotect_audio}
use meowcaller.Session.Pipeline.Packets.{IsPayload, IsPacket, unprotect_lem}

-- The send tracker can give index `i` its ROC.
abbrev pub CanSend : RocTracker → ℕ → Type 0
CanSend t i =
    ((t.initialized ≡ false) × (t.roc ≡ 0) × (i < 65536)) ⊎ ((j : ℕ) × SentUpTo t j × (suc j ≡ i))

pub advance-CanSend :
    (t : RocTracker) (i : ℕ)
    → IsIndex i
    → CanSend t i
    → ((advance t (seq_of i)).1 ≡ roc_of i) × SentUpTo (advance t (seq_of i)).0 i
advance-CanSend t i b (inl fresh) = unfold advance in ground arith
advance-CanSend t i b (inr (j, upto, e)) = advance-SentUpTo t j i upto b (omega arith) (omega arith)

-- The pipeline's next packet has index `i`.
pub record Sending (c : Crypto) (p : MediaPipeline) (i : ℕ) : Type 0 where
  pub keys_valid : IsKeys c p.send_keys
  pub tag_is : p.tag_len ≡ 4
  pub seq_is : p.stream.seq ≡ seq_of i
  pub roc_ready : CanSend p.send_roc i
  pub timestamp_bound : IsU32 p.stream.timestamp
  pub ssrc_bound : IsU32 p.stream.ssrc

-- The payload of a packet that was unprotected.
abbrev pub payload_of : Option (RtpHeader × Bytes) → Option Bytes
payload_of none = none
payload_of (some (h, payload)) = some payload

module _ (c : Crypto) where
  -- `ProtectRTP` where the tracker gives the ROC of the header's index.
  pub protect_rtp_lem :
      (p : MediaPipeline) (header : RtpHeader) (payload : Bytes) (i : ℕ) (body : Bytes)
      → header.sequence_number ≡ seq_of i
      → (advance p.send_roc (seq_of i)).1 ≡ roc_of i
      → crypt_payload c p.send_keys header.ssrc (seq_of i) (roc_of i) payload ≡ some body
      → p.tag_len ≡ 4
      → protect_rtp c p header payload ≡ (
        record p {
          send_roc = (advance p.send_roc (seq_of i)).0;
          packets_sent = u32 (p.packets_sent + 1);
          octets_sent = u32 (p.octets_sent + u32 (length payload));
          rtp_timestamp = header.timestamp;
        },
        some (
            append_warp_mi_tag c p.send_keys.auth_key
              (encode_rtp_header header ++ body)
              (roc_of i)
              4),
      )
  unfolding protect_rtp
  protect_rtp_lem p header payload i body seq roc enc tag =
      let enc' : crypt_payload c p.send_keys header.ssrc header.sequence_number
            (advance p.send_roc header.sequence_number).1 payload
          ≡ some body =
        rw (seq, roc) enc in
      rw (enc', protect_rtp) (rw (seq, roc, tag) refl)

  module _ (p : MediaPipeline) (i : ℕ) (payload : Bytes) (s : Sending c p i) (b : IsIndex i)
      (v : IsPayload payload) where
    abbrev pub header : RtpHeader
    header = (next_packet p.stream payload false).1

    stream-IsStream : IsStream p.stream
    stream-IsStream = (omega (arith, s.seq_is), s.timestamp_bound)

    header-seq : header.sequence_number ≡ seq_of i
    header-seq = (next_packet-fields p.stream payload stream-IsStream).5 ∙ s.seq_is

    abbrev pub after : MediaPipeline
    after = record p {
      stream = (next_packet p.stream payload false).0;
      send_roc = (advance p.send_roc (seq_of i)).0;
      packets_sent = u32 (p.packets_sent + 1);
      octets_sent = u32 (p.octets_sent + u32 (length payload));
      rtp_timestamp = header.timestamp;
    }

    abbrev wire : Bytes → Bytes
    wire body =
        append_warp_mi_tag c p.send_keys.auth_key (encode_rtp_header header ++ body) (roc_of i) 4

    protect_audio_lem :
        (body : Bytes)
        → crypt_payload c p.send_keys header.ssrc (seq_of i) (roc_of i) payload ≡ some body
        → protect_audio c p payload ≡ (after, some (wire body))
    unfolding protect_audio
    protect_audio_lem body enc =
        protect_rtp_lem (record p { stream = (next_packet p.stream payload false).0 }) header
          payload i body header-seq (advance-CanSend p.send_roc i b s.roc_ready).0 enc s.tag_is

    pub after-Sending : Sending c after (suc i)
    after-Sending =
        let f = next_packet-fields p.stream payload stream-IsStream in
        record {
          keys_valid = s.keys_valid;
          tag_is = s.tag_is;
          seq_is = omega (arith, f, s.seq_is);
          roc_ready = inr (i, (advance-CanSend p.send_roc i b s.roc_ready).1, refl);
          timestamp_bound = omega (arith, f);
          ssrc_bound = omega (arith, f, s.ssrc_bound);
        }

    wire-IsPacket :
        (body : Bytes)
        → crypt_payload c p.send_keys header.ssrc (seq_of i) (roc_of i) payload ≡ some body
        → IsPacket c p.send_keys i payload (wire body)
    wire-IsPacket body enc = record {
      header = header;
      body = body;
      header_valid = next_packet-IsHeader p.stream payload stream-IsStream s.ssrc_bound;
      seq_is = header-seq;
      payload_valid = v;
      encrypted = enc;
      packet_is = refl;
    }

    -- `ProtectAudio` does not fail, and moves on by one index.
    pub protect_audio-IsPacket :
        (packet : Bytes) × (protect_audio c p payload ≡ (after, some packet))
        × IsPacket c p.send_keys i payload packet
    protect_audio-IsPacket =
        let (body, enc, _, _, _) =
          crypt-crypt c p.send_keys header.ssrc (seq_of i) (roc_of i) payload s.keys_valid v.0 in
        (wire body, protect_audio_lem body enc, wire-IsPacket body enc)

  -- A run of packets sent, and of packets received.
  unfoldable pub send_audio : MediaPipeline → List Bytes → List (Option Bytes)
  send_audio p [] = []
  send_audio p (x ∷ xs) = let (q, sent) = protect_audio c p x in sent ∷ send_audio q xs

  unfoldable pub receive_audio : MediaPipeline → List Bytes → List (Option (RtpHeader × Bytes))
  receive_audio p [] = []
  receive_audio p (x ∷ xs) = let (q, got) = unprotect_audio c p x in got ∷ receive_audio q xs

  -- Packets of given payloads reach the receiver, in any order and with any losses, as long as no
  -- index is 32768 or more away from the highest one before it.
  pub data Arrivals (keys : E2eSrtpKeys) : ℕ → List Bytes → List Bytes → Type 0 where
    over : {h : ℕ} → Arrivals keys h [] []
    arrive :
        {h : ℕ} {packets payloads : List Bytes} (i : ℕ) (payload packet : Bytes)
        → IsPacket c keys i payload packet
        → IsIndex i
        → i < h + 32768
        → h < i + 32768
        → Arrivals keys (max h i) packets payloads
        → Arrivals keys h (packet ∷ packets) (payload ∷ payloads)

  -- The receiver, keyed like the sender, has placed packets up to index `h`.
  pub record Receiving (keys : E2eSrtpKeys) (p : MediaPipeline) (h : ℕ) : Type 0 where
    pub keys_valid : IsKeys c keys
    pub same_keys : p.recv_keys ≡ keys
    pub tag_is : p.tag_len ≡ 4
    pub tracking : IsTracking p.recv_roc
    pub highest_is : highest p.recv_roc ≡ h

  -- Into a pipeline with the sender's keys, a 4-byte tag and a started tracker, packets may
  -- arrive reordered, duplicated or with losses: as long as each is less than 32768 indices from
  -- the highest one before it, each is decrypted by UnprotectAudio to the payload that was sent.
  pub receive_audio-Arrivals :
      (keys : E2eSrtpKeys) (p : MediaPipeline) {h : ℕ} {packets payloads : List Bytes}
      → Receiving keys p h
      → Arrivals keys h packets payloads
      → map payload_of (receive_audio p packets) ≡ map some payloads
  unfolding receive_audio
  receive_audio-Arrivals keys p r over = refl
  receive_audio-Arrivals keys p r (arrive i payload packet sent b lo hi rest) =
      let near = r.highest_is in
      let (same, next, top) =
        guess_roc-exact p.recv_roc i r.tracking b (omega arith) (omega arith) in
      let got =
        unprotect_lem c keys r.keys_valid i payload packet sent p r.same_keys r.tag_is same in
      rw got (
        ap (◌∷◌ (some payload)) (
          receive_audio-Arrivals keys (record p { recv_roc = (guess_roc p.recv_roc (seq_of i)).0 })
            (record {
              keys_valid = r.keys_valid;
              same_keys = r.same_keys;
              tag_is = r.tag_is;
              tracking = next;
              highest_is = omega (arith, top);
            })
            rest))
