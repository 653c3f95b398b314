-- ===== src/Media/Receive/Steps.antt =====
-- One packet at the receiver.
use meowcaller.Base.{
  ℕ, suc, ◌<◌, ◌≡◌, refl, ap, ◌∙◌, ◌⊎◌, inl, inr, Bool, false, ◌&&◌, Option, none, some, List, [],
  ◌∷◌, ◌++◌, arith, ltb, if◌then◌else◌, Bool-cases, length, Bytes,
}
use meowcaller.Srtp.Crypto.{Crypto}
use meowcaller.Srtp.Roc.{RecvRocTracker, guess_roc}
use meowcaller.Srtp.Roc.Exact.{IsIndex, IsTracking, seq_of, roc_of, highest, guess_roc-exact}
use meowcaller.Srtp.E2e.{E2eSrtpKeys}
use meowcaller.Srtp.E2e.Crypt.{IsKeys}
use meowcaller.Rtp.Header.{RtpHeader, VideoRtpExtension}
use meowcaller.Rtp.H264.{depacketize}
use meowcaller.Rtp.Reception.{observe}
use meowcaller.Session.Pipeline.{MediaPipeline, unprotect_audio}
use meowcaller.Session.Pipeline.Packets.{IsPacket, guess_roc-CanPlace, unprotect_lem}
use meowcaller.Session.Pipeline.EndToEnd.{highest-fresh}
use meowcaller.Media.Classify.{video_payload, classify_media_payload}
use meowcaller.Media.Classify.Wire.{packet_on_wire}
use meowcaller.Media.Video.{start_code}
use meowcaller.Media.Receive.{
  VideoReceiver, SinkCall, set_orientation, write_video, gather, orient, receive_units,
  receive_payload, receive_video, receive_opened, on_relay_packet,
}

-- The frames among what the sink is told.
unfoldable pub frames_of : List SinkCall → List Bytes
frames_of [] = []
frames_of (set_orientation n ∷ calls) = frames_of calls
frames_of (write_video frame ∷ calls) = frame ∷ frames_of calls

pub frames_of-append : (xs ys : List SinkCall) → frames_of (xs ++ ys) ≡ frames_of xs ++ frames_of ys
unfolding frames_of
frames_of-append [] ys = refl
frames_of-append (set_orientation n ∷ xs) ys = frames_of-append xs ys
frames_of-append (write_video frame ∷ xs) ys = ap (◌∷◌ frame) (frames_of-append xs ys)

pub gather-append :
    (au : Bytes) (xs ys : List Bytes) → gather au (xs ++ ys) ≡ gather (gather au xs) ys
unfolding gather
gather-append au [] ys = refl
gather-append au (x ∷ xs) ys = gather-append ((au ++ start_code) ++ x) xs ys

-- The next packet in order has index `i`.
abbrev pub NextIn : RecvRocTracker → ℕ → Type 0
NextIn t i =
    ((t.initialized ≡ false) × (t.roc ≡ 0) × (i < 65536)) ⊎ (IsTracking t × (suc (highest t) ≡ i))

guess_roc-NextIn :
    (t : RecvRocTracker) (i : ℕ)
    → IsIndex i
    → NextIn t i
    → ((guess_roc t (seq_of i)).1 ≡ roc_of i) × NextIn (guess_roc t (seq_of i)).0 (suc i)
guess_roc-NextIn t i b (inl (z, r, small)) =
    let (same, next) = guess_roc-CanPlace t i b (inl (z, r, small)) in
    (same, inr (next, ap suc (highest-fresh t i z r small)))
guess_roc-NextIn t i b (inr (tracking, e)) =
    let (same, next, top) = guess_roc-exact t i tracking b (omega arith) (omega arith) in
    (same, inr (next, omega arith))

pub record ReceivingVideo (c : Crypto) (keys : E2eSrtpKeys) (p : MediaPipeline) (i : ℕ)
    : Type 0 where
  pub keys_valid : IsKeys c keys
  pub same_keys : p.recv_keys ≡ keys
  pub tag_is : p.tag_len ≡ 4
  pub next_in : NextIn p.recv_roc i

-- An update of the orientation leaves the rest.
orient_lem :
    (r : VideoReceiver) (e : Option VideoRtpExtension)
    → ((orient r e).0.pipe ≡ r.pipe)
      × ((orient r e).0.depack ≡ r.depack)
      × ((orient r e).0.unit ≡ r.unit)
      × (frames_of (orient r e).1 ≡ [])
unfolding orient frames_of
orient_lem r none = (refl, refl, refl, refl)
orient_lem r (some e) = ground arith

receive_units_lem :
    (r : VideoReceiver) (marker : Bool) (payload : Bytes)
    → let (depack, nalus) = depacketize r.depack payload in
      let unit = gather r.unit nalus in
      let (next, calls) = receive_units r marker payload in
      let done = marker && ltb 0 (length unit) in
      (next.pipe ≡ r.pipe)
      × (next.depack ≡ depack)
      × (next.unit ≡ (if done then [] else unit))
      × (frames_of calls ≡ (if done then unit ∷ [] else []))
unfolding receive_units frames_of
receive_units_lem r marker payload =
    elim (Bool-cases (marker && ltb 0 (length (gather r.unit (depacketize r.depack payload).1)))) [
      | inl done ↦ rw done (refl, refl, refl, refl)
      | inr more ↦ rw more (refl, refl, refl, refl)
    ]

receive_payload_lem :
    (r : VideoReceiver) (vh : RtpHeader) (now : ℕ) (payload : Bytes)
    → let (depack, nalus) = depacketize r.depack payload in
      let unit = gather r.unit nalus in
      let (next, calls) = receive_payload r vh now payload in
      let done = vh.marker && ltb 0 (length unit) in
      (next.pipe ≡ r.pipe)
      × (next.depack ≡ depack)
      × (next.unit ≡ (if done then [] else unit))
      × (frames_of calls ≡ (if done then unit ∷ [] else []))
unfolding receive_payload
receive_payload_lem r vh now payload =
    let observed : VideoReceiver = record r {
      reception = observe r.reception vh.ssrc vh.sequence_number vh.timestamp now 90000;
    } in
    let (turned, calls) = orient observed vh.video_extension in
    let (pipe_same, depack_same, unit_same, quiet) = orient_lem observed vh.video_extension in
    let (pipe, depack, unit, frames) = receive_units_lem turned vh.marker payload in
    (
      pipe ∙ pipe_same,
      (rw depack_same at depack),
      (rw (depack_same, unit_same) at unit),
      frames_of-append calls _ ∙ rw quiet (rw (depack_same, unit_same) at frames),
    )

-- Packets, each with the time at which it arrives.
unfoldable pub stamped : (ℕ → ℕ) → List Bytes → List (ℕ × Bytes)
stamped clock [] = []
stamped clock (packet ∷ packets) = (clock 0, packet) ∷ stamped (λ k. clock (suc k)) packets

module _ (c : Crypto) (keys : E2eSrtpKeys) where
  receive_video_lem :
      (r : VideoReceiver) (vh hdr : RtpHeader) (now : ℕ) (packet payload : Bytes)
      (pipe : MediaPipeline)
      → unprotect_audio c r.pipe packet ≡ (pipe, some (hdr, payload))
      → receive_video c r vh now packet ≡ receive_payload (record r { pipe = pipe }) vh now payload
  unfolding receive_video receive_opened
  receive_video_lem r vh hdr now packet payload pipe e = ap (receive_opened r vh now) e

  -- A packet of video reaches the steps behind its unprotection.
  on_relay_packet-video :
      (r : VideoReceiver) (i now : ℕ) (payload packet : Bytes)
      (sent : IsPacket c keys i payload packet)
      → sent.header.payload_type ≡ 97
      → IsIndex i
      → ReceivingVideo c keys r.pipe i
      → on_relay_packet c r now packet
        ≡ receive_payload
            (record r {
              pipe = record (r.pipe) { recv_roc = (guess_roc r.pipe.recv_roc (seq_of i)).0 };
            })
            (record (sent.header) { extension_word = none })
            now
            payload
  unfolding on_relay_packet
  on_relay_packet-video r i now payload packet sent h264 b v =
      let h = sent.header in
      let (rtp, parsed) = packet_on_wire c keys i payload packet sent (omega arith) in
      let video : classify_media_payload (record h { extension_word = none }) ≡ video_payload =
        unfold classify_media_payload in rw h264 refl in
      let opened =
        unprotect_lem c keys v.keys_valid i payload packet sent r.pipe v.same_keys v.tag_is
          (guess_roc-NextIn r.pipe.recv_roc i b v.next_in).0 in
      rw (rtp, parsed, video, on_relay_packet) (receive_video_lem r _ _ now packet payload _ opened)

  -- The steps of one packet: what is unprotected is in order, and the units are gathered.
  pub on_relay_packet_lem :
      (r : VideoReceiver) (i now : ℕ) (payload packet : Bytes)
      (sent : IsPacket c keys i payload packet)
      → sent.header.payload_type ≡ 97
      → IsIndex i
      → ReceivingVideo c keys r.pipe i
      → let (depack, nalus) = depacketize r.depack payload in
        let unit = gather r.unit nalus in
        let (next, calls) = on_relay_packet c r now packet in
        let done = sent.header.marker && ltb 0 (length unit) in
        ReceivingVideo c keys next.pipe (suc i)
        × (next.depack ≡ depack)
        × (next.unit ≡ (if done then [] else unit))
        × (frames_of calls ≡ (if done then unit ∷ [] else []))
  on_relay_packet_lem r i now payload packet sent h264 b v =
      let pipe : MediaPipeline = record (r.pipe) {
        recv_roc = (guess_roc r.pipe.recv_roc (seq_of i)).0;
      } in
      let vh : RtpHeader = record (sent.header) { extension_word = none } in
      let (pipe_is, depack, unit, frames) =
        receive_payload_lem (record r { pipe = pipe }) vh now payload in
      rw (on_relay_packet-video r i now payload packet sent h264 b v) (
        rw pipe_is (record {
          keys_valid = v.keys_valid;
          same_keys = v.same_keys;
          tag_is = v.tag_is;
          next_in = (guess_roc-NextIn r.pipe.recv_roc i b v.next_in).1;
        }),
        depack,
        unit,
        frames,
      )
