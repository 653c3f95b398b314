-- ===== src/Session/Pipeline/EndToEnd.antt =====
-- From one end of a call to the other.
use meowcaller.Base.{
  ℕ, suc, ◌+◌, ◌≤◌, ◌<◌, max, ◌≡◌, refl, ap, inl, false, some, List, [], ◌∷◌, map, arith, length,
  All, Bytes, IsU32,
}
use meowcaller.Srtp.Crypto.{Crypto}
use meowcaller.Srtp.Roc.{RecvRocTracker, guess_roc, new_roc_tracker, new_recv_roc_tracker}
use meowcaller.Srtp.Roc.Exact.{IsIndex, seq_of, highest}
use meowcaller.Srtp.E2e.{E2eSrtpKeys}
use meowcaller.Srtp.E2e.Crypt.{IsKeys, derive_e2e_keys-IsKeys}
use meowcaller.Rtp.Stream.{new_rtp_stream}
use meowcaller.Util.Participant.{format_participant_id}
use meowcaller.Session.Pipeline.{MediaPipeline, new_media_pipeline}
use meowcaller.Session.Pipeline.Packets.{IsPayload, guess_roc-CanPlace, unprotect_lem}
use meowcaller.Session.Pipeline.Delivery.{
  Sending, Arrivals, over, arrive, send_audio, receive_audio, payload_of, after, after-Sending,
  protect_audio-IsPacket, receive_audio-Arrivals,
}

pub highest-fresh :
    (t : RecvRocTracker) (i : ℕ)
    → t.initialized ≡ false
    → t.roc ≡ 0
    → i < 65536
    → highest (guess_roc t (seq_of i)).0 ≡ i
unfolding guess_roc
highest-fresh t i h z b = ground arith

module _ (c : Crypto) where
  -- What a pipeline sends from index `i + 1` on arrives in order behind index `i`.
  send_audio-Arrivals :
      (xs : List Bytes) (p : MediaPipeline) (i : ℕ)
      → Sending c p (suc i)
      → IsIndex (i + length xs)
      → All IsPayload xs
      → (packets : List Bytes) × (send_audio c p xs ≡ map some packets)
        × Arrivals c p.send_keys i packets xs
  unfolding send_audio
  send_audio-Arrivals [] p i s b v = ([], refl, over)
  send_audio-Arrivals (x ∷ xs) p i s b (vx, v) =
      let here : IsIndex (suc i) = omega arith in
      let (packet, sent, ok) = protect_audio-IsPacket c p (suc i) x s here vx in
      let (packets, later, arrivals) =
        send_audio-Arrivals xs (after c p (suc i) x s here vx) (suc i)
          (after-Sending c p (suc i) x s here vx) (omega arith) v in
      let top : max i (suc i) ≡ suc i = omega arith in
      (
        packet ∷ packets,
        rw (sent, later) refl,
        arrive (suc i) x packet ok here (omega arith) (omega arith) (rw top arrivals),
      )

  -- A receiver that has seen no packet yet places the first one at ROC 0.
  receive_audio-fresh :
      (keys : E2eSrtpKeys) (p : MediaPipeline) {packets payloads : List Bytes}
      → IsKeys c keys
      → p.recv_keys ≡ keys
      → p.tag_len ≡ 4
      → p.recv_roc.initialized ≡ false
      → p.recv_roc.roc ≡ 0
      → Arrivals c keys 0 packets payloads
      → map payload_of (receive_audio c p packets) ≡ map some payloads
  unfolding receive_audio
  receive_audio-fresh keys p k e t z r over = refl
  receive_audio-fresh keys p k e t z r (arrive i payload packet sent b lo hi rest) =
      let small : i < 65536 = omega arith in
      let (same, next) = guess_roc-CanPlace p.recv_roc i b (inl (z, r, small)) in
      let top = highest-fresh p.recv_roc i z r small in
      let top' : max 0 i ≡ i = omega arith in
      rw (unprotect_lem c keys k i payload packet sent p e t same) (
        ap (◌∷◌ (some payload)) (
          receive_audio-Arrivals c keys
            (record p { recv_roc = (guess_roc p.recv_roc (seq_of i)).0 })
            (record {
              keys_valid = k;
              same_keys = e;
              tag_is = t;
              tracking = next;
              highest_is = top;
            })
            (rw top' at rest)))

  fresh_pipeline : E2eSrtpKeys → E2eSrtpKeys → ℕ → ℕ → MediaPipeline
  fresh_pipeline send_keys recv_keys ssrc samples = record {
    send_keys = send_keys;
    recv_keys = recv_keys;
    tag_len = 4;
    stream = new_rtp_stream ssrc samples false;
    send_roc = new_roc_tracker;
    recv_roc = new_recv_roc_tracker;
    packets_sent = 0;
    octets_sent = 0;
    rtp_timestamp = 0;
  }

  fresh-Sending :
      (send_keys recv_keys : E2eSrtpKeys) (ssrc samples : ℕ)
      → IsKeys c send_keys
      → IsU32 ssrc
      → Sending c (fresh_pipeline send_keys recv_keys ssrc samples) 1
  unfolding fresh_pipeline new_rtp_stream
  fresh-Sending send_keys recv_keys ssrc samples k b = record {
    keys_valid = k;
    tag_is = refl;
    seq_is = refl;
    roc_ready = inl (refl, refl, omega arith);
    timestamp_bound = omega arith;
    ssrc_bound = b;
  }

  -- From one call key of at least 32 bytes both sides build a media pipeline for each other, and
  -- every payload that one side, with a 32-bit SSRC, protects, in order and fewer than 2^48 of
  -- them (payloads of at least one byte), is sent without an error and comes out of the other
  -- side's UnprotectAudio unchanged.
  pub end_to_end :
      (call_key self_jid peer_jid : Bytes) (ssrc samples ssrc' samples' : ℕ) (xs : List Bytes)
      → 32 ≤ length call_key
      → IsU32 ssrc
      → IsIndex (length xs)
      → All IsPayload xs
      → (tx rx : MediaPipeline) × (packets : List Bytes) × (new_media_pipeline c call_key self_jid
            peer_jid ssrc samples
          ≡ some tx)
        × (new_media_pipeline c call_key peer_jid self_jid ssrc' samples' ≡ some rx)
        × (send_audio c tx xs ≡ map some packets)
        × (map payload_of (receive_audio c rx packets) ≡ map some xs)
  unfolding new_media_pipeline fresh_pipeline
  end_to_end call_key self_jid peer_jid ssrc samples ssrc' samples' xs long b n v =
      let (ka, ea, va) = derive_e2e_keys-IsKeys c call_key (format_participant_id self_jid) long in
      let (kb, eb, vb) = derive_e2e_keys-IsKeys c call_key (format_participant_id peer_jid) long in
      let tx = fresh_pipeline ka kb ssrc samples in
      let rx = fresh_pipeline kb ka ssrc' samples' in
      let (packets, sent, arrivals) =
        send_audio-Arrivals xs tx 0 (fresh-Sending ka kb ssrc samples va b) (omega arith) v in
      (
        tx,
        rx,
        packets,
        rw (ea, eb) refl,
        rw (eb, ea) refl,
        sent,
        receive_audio-fresh ka rx va refl refl refl refl arrivals,
      )
