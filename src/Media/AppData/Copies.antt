-- ===== src/Media/AppData/Copies.antt =====
-- The copies of one reaction on the wire.
use meowcaller.Base.{
  ℕ, zero, suc, ◌+◌, ◌<◌, ◌≡◌, refl, ap, ◌∙◌, inr, Bool, true, false, some, List, [], ◌∷◌, ◌++◌,
  arith, ltb, length, Bytes, IsU32, u16, u32,
}
use meowcaller.Srtp.Crypto.{Crypto}
use meowcaller.Srtp.Roc.{advance}
use meowcaller.Srtp.Roc.Exact.{IsIndex, seq_of, roc_of}
use meowcaller.Srtp.Warp.{append_warp_mi_tag}
use meowcaller.Srtp.E2e.{E2eSrtpKeys}
use meowcaller.Srtp.E2e.Crypt.{IsKeys, crypt-crypt}
use meowcaller.Rtp.Header.{RtpHeader, encode_rtp_header}
use meowcaller.Rtp.Header.RoundTrip.{IsHeader}
use meowcaller.Session.Pipeline.{MediaPipeline, protect_rtp}
use meowcaller.Session.Pipeline.Packets.{IsPayload, IsPacket}
use meowcaller.Session.Pipeline.Delivery.{CanSend, advance-CanSend, protect_rtp_lem}
use meowcaller.Media.AppData.{Protowire}
use meowcaller.Media.AppData.Stream.{
  AppDataSender, sent, send_failed, copy_header, stepped, send_copies, copy_outcome,
}

-- The pipeline's next copy has index `i`.
pub record SendingData (c : Crypto) (p : MediaPipeline) (s : AppDataSender) (i : ℕ) : Type 0 where
  pub keys_valid : IsKeys c p.send_keys
  pub tag_is : p.tag_len ≡ 4
  pub seq_is : u16 (s.sequence_number + 1) ≡ seq_of i
  pub roc_ready : CanSend p.send_roc i
  pub ssrc_bound : IsU32 s.ssrc

-- Copies of a payload from index `i` on.
pub data Copies (c : Crypto) (keys : E2eSrtpKeys) (ssrc : ℕ) (payload : Bytes)
    : ℕ → List Bytes → Type 0 where
  no_copies : {i : ℕ} → Copies c keys ssrc payload i []
  a_copy :
      {i : ℕ} (packet : Bytes) {packets : List Bytes} (copy : IsPacket c keys i payload packet)
      → copy.header.payload_type ≡ 119
      → copy.header.ssrc ≡ ssrc
      → Copies c keys ssrc payload (suc i) packets
      → Copies c keys ssrc payload i (packet ∷ packets)

module _ (c : Crypto) (w : Protowire) where
  module _ (p : MediaPipeline) (s : AppDataSender) (i : ℕ) (payload : Bytes)
      (v : SendingData c p s i) (b : IsIndex i) (good : IsPayload payload) where
    abbrev header_sent : RtpHeader
    header_sent = copy_header c w s

    sent-IsHeader : IsHeader header_sent
    sent-IsHeader = record {
      payload_type_bound = omega arith;
      sequence_bound = omega arith;
      timestamp_bound = omega arith;
      ssrc_bound = v.ssrc_bound;
      extension_valid = tt;
    }

    abbrev pipe_after : MediaPipeline
    pipe_after = record p {
      send_roc = (advance p.send_roc (seq_of i)).0;
      packets_sent = u32 (p.packets_sent + 1);
      octets_sent = u32 (p.octets_sent + u32 (length payload));
      rtp_timestamp = header_sent.timestamp;
    }

    send_copy :
        (packet : Bytes) × (protect_rtp c p header_sent payload ≡ (pipe_after, some packet))
        × ((copy : IsPacket c p.send_keys i payload packet) × (copy.header.payload_type ≡ 119)
            × (copy.header.ssrc ≡ s.ssrc))
        × SendingData c pipe_after (stepped c w s pipe_after) (suc i)
    send_copy =
        let (roc, upto) = advance-CanSend p.send_roc i b v.roc_ready in
        let (body, enc, _, _, _) =
          crypt-crypt c p.send_keys header_sent.ssrc (seq_of i) (roc_of i) payload v.keys_valid
            good.0 in
        (
          append_warp_mi_tag c p.send_keys.auth_key (encode_rtp_header header_sent ++ body)
              (roc_of i) 4,
          protect_rtp_lem c p header_sent payload i body v.seq_is roc enc v.tag_is,
          (
            record {
              header = header_sent;
              body = body;
              header_valid = sent-IsHeader;
              seq_is = v.seq_is;
              payload_valid = good;
              encrypted = enc;
              packet_is = refl;
            },
            refl,
            refl,
          ),
          record {
            keys_valid = v.keys_valid;
            tag_is = v.tag_is;
            seq_is = omega (arith, v.seq_is);
            roc_ready = inr (i, upto, refl);
            ssrc_bound = v.ssrc_bound;
          },
        )

  -- A round that sends its copy.
  pub send_copies-step :
      (send_packet : ℕ → Bytes → Bool) (k left : ℕ) (p p' : MediaPipeline) (s : AppDataSender)
      (payload packet : Bytes)
      → protect_rtp c p (copy_header c w s) payload ≡ (p', some packet)
      → send_packet k packet ≡ true
      → send_copies c w send_packet k (suc left) payload p s ≡ (
        (send_copies c w send_packet (suc k) left payload p' (stepped c w s p')).0,
        packet ∷ (send_copies c w send_packet (suc k) left payload p' (stepped c w s p')).1,
      )
  unfolding send_copies copy_outcome
  send_copies-step send_packet k left p p' s payload packet e taken =
      ap
        (λ res.
          copy_outcome c w (send_packet k) (stepped c w s res.0)
            (send_copies c w send_packet (suc k) left payload res.0 (stepped c w s res.0)) res.1)
        e
      ∙ rw taken refl

  -- A channel that takes every packet is given all copies.
  pub send_copies-Copies :
      (send_packet : ℕ → Bytes → Bool) (k left : ℕ) (p : MediaPipeline) (s : AppDataSender) (i : ℕ)
      (payload : Bytes)
      → ((n : ℕ) (packet : Bytes) → send_packet n packet ≡ true)
      → s.pipe ≡ some p
      → SendingData c p s i
      → IsIndex (i + left)
      → IsPayload payload
      → let ((s', result), packets) = send_copies c w send_packet k left payload p s in
        (result ≡ sent)
        × Copies c p.send_keys s.ssrc payload i packets
        × (length packets ≡ left)
        × (s'.transaction_id ≡ s.transaction_id)
        × (s'.has_send_packet ≡ s.has_send_packet)
        × (s'.ssrc ≡ s.ssrc)
        × ((p' : MediaPipeline) × (s'.pipe ≡ some p')
            × (p'.send_keys ≡ p.send_keys)
            × SendingData c p' s' (i + left))
  send_copies-Copies send_packet k zero p s i payload takes held v b good =
      let same : i + 0 ≡ i = omega arith in
      rw same (unfold send_copies in (refl, no_copies, refl, refl, refl, refl, (p, held, refl, v)))
  send_copies-Copies send_packet k (suc left) p s i payload takes held v b good =
      let here : IsIndex i = omega arith in
      let (packet, out, (copy, data_type, ssrc), next) = send_copy p s i payload v here good in
      let p' = pipe_after p s i payload v here good in
      let (all, copies, size, id, open_still, ssrc_same, (last, held', keys, after)) =
        send_copies-Copies send_packet (suc k) left p' (stepped c w s p') (suc i) payload takes refl
          next (omega arith) good in
      let taken = takes k packet in
      let at : i + suc left ≡ suc i + left = omega arith in
      rw (send_copies-step send_packet k left p p' s payload packet out taken, at)
        (
          all,
          a_copy packet copy data_type ssrc copies,
          ap suc size,
          id,
          open_still,
          ssrc_same,
          (last, held', keys, after),
        )

  -- A round whose copy is refused is the last.
  send_copies-refused_step :
      (send_packet : ℕ → Bytes → Bool) (k left : ℕ) (p p' : MediaPipeline) (s : AppDataSender)
      (payload packet : Bytes)
      → protect_rtp c p (copy_header c w s) payload ≡ (p', some packet)
      → send_packet k packet ≡ false
      → send_copies c w send_packet k (suc left) payload p s ≡ ((stepped c w s p', send_failed), [])
  unfolding send_copies copy_outcome
  send_copies-refused_step send_packet k left p p' s payload packet e refused =
      ap
        (λ res.
          copy_outcome c w (send_packet k) (stepped c w s res.0)
            (send_copies c w send_packet (suc k) left payload res.0 (stepped c w s res.0)) res.1)
        e
      ∙ rw refused refl

  -- The loop ends at the first copy that the channel refuses.
  pub send_copies-refused :
      (send_packet : ℕ → Bytes → Bool) (k before left : ℕ) (p : MediaPipeline) (s : AppDataSender)
      (i : ℕ) (payload : Bytes)
      → ((n : ℕ) (packet : Bytes) → send_packet n packet ≡ ltb n (k + before))
      → before < left
      → SendingData c p s i
      → IsIndex (i + left)
      → IsPayload payload
      → let ((s', result), packets) = send_copies c w send_packet k left payload p s in
        (result ≡ send_failed) × (length packets ≡ before) × (s'.transaction_id ≡ s.transaction_id)
  send_copies-refused send_packet k before zero p s i payload takes lt v b good =
      absurd (omega arith)
  send_copies-refused send_packet k zero (suc left) p s i payload takes lt v b good =
      let (packet, out, _, _) = send_copy p s i payload v (omega arith) good in
      let no : ltb k (k + 0) ≡ false = ground arith in
      rw
        (send_copies-refused_step send_packet k left p
          (pipe_after p s i payload v (omega arith) good) s payload packet out
          (takes k packet ∙ no))
        (refl, refl, refl)
  send_copies-refused send_packet k (suc before) (suc left) p s i payload takes lt v b good =
      let (packet, out, _, next) = send_copy p s i payload v (omega arith) good in
      let p' = pipe_after p s i payload v (omega arith) good in
      let yes : ltb k (k + suc before) ≡ true = ground arith in
      let at : k + suc before ≡ suc k + before = omega arith in
      let (failed, size, id) =
        send_copies-refused send_packet (suc k) before left p' (stepped c w s p') (suc i) payload
          (rw at at takes) (omega arith) next (omega arith) good in
      rw (send_copies-step send_packet k left p p' s payload packet out (takes k packet ∙ yes))
        (failed, ap suc size, id)
