-- ===== src/Media/Video/Packets.antt =====
-- The packets of one access unit.
use meowcaller.Base.{
  ℕ, suc, ◌+◌, ◌≡◌, refl, ◌∙◌, inr, Bool, true, false, some, List, [], ◌∷◌, ◌++◌, arith, ◌==◌,
  length, All, Bytes, IsU8, IsU32, u16, u32,
}
use meowcaller.Srtp.Crypto.{Crypto}
use meowcaller.Srtp.Roc.{advance}
use meowcaller.Srtp.Roc.Exact.{IsIndex, seq_of, roc_of}
use meowcaller.Srtp.Warp.{append_warp_mi_tag}
use meowcaller.Srtp.E2e.{E2eSrtpKeys}
use meowcaller.Srtp.E2e.Crypt.{IsKeys, crypt-crypt}
use meowcaller.Rtp.Header.{RtpHeader, encode_rtp_header}
use meowcaller.Rtp.Header.RoundTrip.{IsHeader}
use meowcaller.Rtp.Stream.{VideoRtpStream, next_video_packet}
use meowcaller.Rtp.Stream.Video.{IsVideoStream}
use meowcaller.Session.Pipeline.{MediaPipeline, protect_rtp}
use meowcaller.Session.Pipeline.Packets.{IsPayload, IsPacket}
use meowcaller.Session.Pipeline.Delivery.{CanSend, advance-CanSend, protect_rtp_lem}
use meowcaller.Media.Video.{protect_payloads}

-- The next packet of the pipeline and the stream has index `i`.
pub record SendingVideo (c : Crypto) (p : MediaPipeline) (s : VideoRtpStream) (i : ℕ) : Type 0 where
  pub keys_valid : IsKeys c p.send_keys
  pub tag_is : p.tag_len ≡ 4
  pub seq_is : s.seq ≡ seq_of i
  pub roc_ready : CanSend p.send_roc i
  pub stream_valid : IsVideoStream s
  pub ssrc_bound : IsU32 s.ssrc

-- The packets of an access unit from index `i` on, of which the last one is marked.
pub data UnitPackets (c : Crypto) (keys : E2eSrtpKeys) : ℕ → List Bytes → List Bytes → Type 0 where
  last_packet :
      (i : ℕ) (payload packet : Bytes) (sent : IsPacket c keys i payload packet)
      → sent.header.marker ≡ true
      → sent.header.payload_type ≡ 97
      → UnitPackets c keys i (packet ∷ []) (payload ∷ [])
  more_packets :
      (i : ℕ) (payload packet : Bytes) {packets payloads : List Bytes}
      (sent : IsPacket c keys i payload packet)
      → sent.header.marker ≡ false
      → sent.header.payload_type ≡ 97
      → UnitPackets c keys (suc i) packets payloads
      → UnitPackets c keys i (packet ∷ packets) (payload ∷ payloads)

pub next_video_packet-fields :
    (s : VideoRtpStream) (last : Bool) (info : ℕ)
    → IsVideoStream s
    → IsU8 info
    → IsU32 s.ssrc
    → let (t, h) = next_video_packet s last info in
      IsVideoStream t
      × (t.seq ≡ u16 (s.seq + 1))
      × (t.ssrc ≡ s.ssrc)
      × IsHeader h
      × (h.sequence_number ≡ s.seq)
      × (h.marker ≡ last)
      × (h.payload_type ≡ 97)
      × (h.ssrc ≡ s.ssrc)
unfolding next_video_packet
next_video_packet-fields s last info v i b = ground arith

module _ (c : Crypto) where
  module _ (p : MediaPipeline) (s : VideoRtpStream) (i : ℕ) (last : Bool) (info : ℕ)
      (payload : Bytes) (v : SendingVideo c p s i) (b : IsIndex i) (w : IsPayload payload)
      (u : IsU8 info) where
    abbrev stream_after : VideoRtpStream
    stream_after = (next_video_packet s last info).0

    abbrev header_sent : RtpHeader
    header_sent = (next_video_packet s last info).1

    abbrev pipe_after : MediaPipeline
    pipe_after = record p {
      send_roc = (advance p.send_roc (seq_of i)).0;
      packets_sent = u32 (p.packets_sent + 1);
      octets_sent = u32 (p.octets_sent + u32 (length payload));
      rtp_timestamp = header_sent.timestamp;
    }

    -- One payload becomes a packet, and the next index is the next packet's.
    send_one :
        (packet : Bytes) × (protect_rtp c p header_sent payload ≡ (pipe_after, some packet))
        × ((sent : IsPacket c p.send_keys i payload packet) × (sent.header.marker ≡ last)
            × (sent.header.payload_type ≡ 97))
        × SendingVideo c pipe_after stream_after (suc i)
    send_one =
        let (stream_ok, seq_next, ssrc_same, header_ok, seq_now, marked, h264, ssrc_is) =
          next_video_packet-fields s last info v.stream_valid u v.ssrc_bound in
        let (roc, upto) = advance-CanSend p.send_roc i b v.roc_ready in
        let seq : header_sent.sequence_number ≡ seq_of i = seq_now ∙ v.seq_is in
        let (body, enc, _, _, _) =
          crypt-crypt c p.send_keys header_sent.ssrc (seq_of i) (roc_of i) payload v.keys_valid
            w.0 in
        (
          append_warp_mi_tag c p.send_keys.auth_key (encode_rtp_header header_sent ++ body)
              (roc_of i) 4,
          protect_rtp_lem c p header_sent payload i body seq roc enc v.tag_is,
          (
            record {
              header = header_sent;
              body = body;
              header_valid = header_ok;
              seq_is = seq;
              payload_valid = w;
              encrypted = enc;
              packet_is = refl;
            },
            marked,
            h264,
          ),
          record {
            keys_valid = v.keys_valid;
            tag_is = v.tag_is;
            seq_is = omega (arith, seq_next, v.seq_is);
            roc_ready = inr (i, upto, refl);
            stream_valid = stream_ok;
            ssrc_bound = omega (arith, ssrc_same, v.ssrc_bound);
          },
        )

  -- The payloads of an access unit become its packets.
  pub protect_payloads-UnitPackets :
      (p : MediaPipeline) (s : VideoRtpStream) (i info : ℕ) (x : Bytes) (xs : List Bytes)
      → SendingVideo c p s i
      → IsIndex (i + length xs)
      → All IsPayload (x ∷ xs)
      → IsU8 info
      → let ((p', s'), packets) = protect_payloads c p s info (x ∷ xs) in
        UnitPackets c p.send_keys i packets (x ∷ xs)
        × SendingVideo c p' s' (i + suc (length xs))
        × (p'.send_keys ≡ p.send_keys)
  unfolding protect_payloads
  protect_payloads-UnitPackets p s i info x [] v b (w, ws) u =
      let (packet, out, (sent, marked, h264), next) =
        send_one p s i true info x v (omega arith) w u in
      let at : i + 1 ≡ suc i = omega arith in
      rw (out, at) (last_packet i x packet sent marked h264, next, refl)
  protect_payloads-UnitPackets p s i info x (y ∷ ys) v b (w, ws) u =
      let (packet, out, (sent, marked, h264), next) =
        send_one p s i false info x v (omega arith) w u in
      let (packets, after, same) =
        protect_payloads-UnitPackets (pipe_after p s i false info x v (omega arith) w u)
          (next_video_packet s false info).0 (suc i) info y ys next (omega arith) ws u in
      let inner : (length (y ∷ ys) == 0) ≡ false = ground arith in
      let at : i + suc (suc (length ys)) ≡ suc i + suc (length ys) = omega arith in
      rw (inner, out, at) (more_packets i x packet sent marked h264 packets, after, same)
