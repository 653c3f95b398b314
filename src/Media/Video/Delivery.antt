-- ===== src/Media/Video/Delivery.antt =====
-- From the video sender of one side to the sink of the other.
use meowcaller.Base.{
  ℕ, suc, ◌+◌, ◌≤◌, ◌<◌, ◌≡◌, refl, sym, ap, ◌∙◌, ◌⊎◌, inl, Bool, true, false, List, [], ◌∷◌, ◌++◌,
  map, append_assoc, arith, ltb, if◌then◌else◌, length, All, Bytes, IsBytes,
}
use meowcaller.Srtp.Crypto.{Crypto}
use meowcaller.Srtp.Roc.Exact.{IsIndex}
use meowcaller.Rtp.H264.{package_h264_nalu, au_has_idr, type_bits}
use meowcaller.Rtp.H264.Fragments.{depacketize_all, package-depacketize}
use meowcaller.Rtp.Stream.{VideoRtpStream, set_timestamp_stride}
use meowcaller.Rtp.Stream.Video.{IsVideoStream}
use meowcaller.Session.Pipeline.{MediaPipeline}
use meowcaller.Session.Pipeline.Packets.{IsPayload}
use meowcaller.Media.Video.{
  Duration, VideoSender, start_code, packed_access_unit, send_payloads, protect_access_unit,
  video_rtp_duration_samples, video_media_frame_info_idr, video_media_frame_info_delta,
}
use meowcaller.Media.Video.Payloads.{package-IsPayload, package-some}
use meowcaller.Media.Video.Packets.{
  SendingVideo, UnitPackets, last_packet, more_packets, protect_payloads-UnitPackets,
}
use meowcaller.Media.Receive.{VideoReceiver, gather, on_relay_packet, receive_all}
use meowcaller.Media.Receive.Steps.{ReceivingVideo, frames_of, frames_of-append, stamped}
use meowcaller.Media.Receive.Units.{receive_unit}

-- What is packed of the access unit starts like a NAL unit of type 1 to 23 and has at most 4 MiB.
pub record Sendable (au : Bytes) : Type 0 where
  pub first : ℕ
  pub rest : Bytes
  pub packed_is : packed_access_unit au ≡ first ∷ rest
  pub packed_bytes : IsBytes (first ∷ rest)
  pub type_low : 1 ≤ type_bits first
  pub type_high : type_bits first ≤ 23
  pub size_bound : suc (length rest) ≤ 4194304

abbrev pub payload_count : Bytes → ℕ
payload_count au = length (package_h264_nalu (packed_access_unit au))

-- The gates are open, and both ends are at packet `i`.
pub record Linked (c : Crypto) (vs : VideoSender) (r : VideoReceiver) (i : ℕ) : Type 0 where
  pub is_active : vs.active ≡ true
  pub not_gated : vs.send_gated ≡ false
  pub sending : SendingVideo c vs.pipe vs.stream i
  pub receiving : ReceivingVideo c vs.pipe.send_keys r.pipe i
  pub unit_empty : r.unit ≡ []

set_timestamp_stride-IsVideoStream :
    (s : VideoRtpStream) (n : ℕ)
    → IsVideoStream s
    → IsVideoStream (set_timestamp_stride s n).0
      × ((set_timestamp_stride s n).0.seq ≡ s.seq)
      × ((set_timestamp_stride s n).0.ssrc ≡ s.ssrc)
unfolding set_timestamp_stride
set_timestamp_stride-IsVideoStream s n v = ground arith

stamped-append :
    (clock : ℕ → ℕ) (xs ys : List Bytes)
    → (later : ℕ → ℕ) × (stamped clock (xs ++ ys) ≡ stamped clock xs ++ stamped later ys)
unfolding stamped
stamped-append clock [] ys = (clock, refl)
stamped-append clock (x ∷ xs) ys =
    let (later, e) = stamped-append (λ k. clock (suc k)) xs ys in (later, ap (◌∷◌ (clock 0, x)) e)

-- The first access unit, if there is one, has an IDR slice.
abbrev pub StartsWithIdr : List (Bytes × Duration) → Type 0
StartsWithIdr [] = Unit {0}
StartsWithIdr ((au, duration) ∷ units) = au_has_idr au ≡ true

abbrev pub SendableUnit : Bytes × Duration → Type 0
SendableUnit u = Sendable u.0

abbrev pub total_count : List (Bytes × Duration) → ℕ
total_count [] = 0
total_count ((au, duration) ∷ units) = payload_count au + total_count units

-- The frame that the other side's sink is given for an access unit.
abbrev pub frame_of : Bytes × Duration → Bytes
frame_of u = start_code ++ packed_access_unit u.0

module _ (c : Crypto) where
  stride-SendingVideo :
      (p : MediaPipeline) (s : VideoRtpStream) (n i : ℕ)
      → SendingVideo c p s i
      → SendingVideo c p (set_timestamp_stride s n).0 i
  stride-SendingVideo p s n i v =
      let (valid, seq, ssrc) = set_timestamp_stride-IsVideoStream s n v.stream_valid in
      record {
        keys_valid = v.keys_valid;
        tag_is = v.tag_is;
        seq_is = seq ∙ v.seq_is;
        roc_ready = v.roc_ready;
        stream_valid = valid;
        ssrc_bound = omega (arith, ssrc, v.ssrc_bound);
      }

  -- An access unit that the gates let through is packed and sent.
  protect_access_unit-open :
      (vs : VideoSender) (au : Bytes) (duration : Duration)
      → vs.active ≡ true
      → vs.send_gated ≡ false
      → (vs.keyframe_required ≡ false) ⊎ (au_has_idr au ≡ true)
      → 0 < length (packed_access_unit au)
      → protect_access_unit c vs au duration
        ≡ send_payloads c vs duration (au_has_idr au) (package_h264_nalu (packed_access_unit au))
  unfolding protect_access_unit
  protect_access_unit-open vs au duration a g k n = ground (arith, a, g, k, n)

  some_packet :
      {keys : _} {i : ℕ} {packets payloads : List Bytes}
      → UnitPackets c keys i packets payloads
      → ltb 0 (length packets) ≡ true
  some_packet (last_packet i payload packet sent m h) = ground arith
  some_packet (more_packets i payload packet sent m h rest) = ground arith

  -- The payloads of one access unit, through the sender and the receiver.
  payloads_arrive :
      (vs : VideoSender) (r : VideoReceiver) (idr : Bool) (duration : Duration) (clock : ℕ → ℕ)
      (i : ℕ) (x : Bytes) (xs : List Bytes)
      → Linked c vs r i
      → All IsPayload (x ∷ xs)
      → (vs.keyframe_required ≡ false) ⊎ (idr ≡ true)
      → IsIndex (i + suc (length xs))
      → 0 < length (gather [] (depacketize_all r.depack (x ∷ xs)))
      → let (vs', packets) = send_payloads c vs duration idr (x ∷ xs) in
        let (r', calls) = receive_all c r (stamped clock packets) in
        Linked c vs' r' (i + suc (length xs))
        × (vs'.keyframe_required ≡ false)
        × (frames_of calls ≡ gather [] (depacketize_all r.depack (x ∷ xs)) ∷ [])
  unfolding send_payloads
  payloads_arrive vs r idr duration clock i x xs link valid k b filled =
      let s = (set_timestamp_stride vs.stream (video_rtp_duration_samples duration)).0 in
      let info = if idr then video_media_frame_info_idr else video_media_frame_info_delta in
      let (packets, sending, same) =
        protect_payloads-UnitPackets c vs.pipe s i info x xs
          (stride-SendingVideo vs.pipe vs.stream (video_rtp_duration_samples duration) i
            link.sending)
          (omega arith) valid (ground arith) in
      let empty = link.unit_empty in
      let sent_some = some_packet packets in
      let (receiving, unit, frames) =
        receive_unit c vs.pipe.send_keys r clock packets b link.receiving (rw empty filled) in
      (
        record {
          is_active = link.is_active;
          not_gated = link.not_gated;
          sending = sending;
          receiving = rw same receiving;
          unit_empty = unit;
        },
        ground (arith, k, sent_some),
        frames ∙ ap (λ u. gather u (depacketize_all r.depack (x ∷ xs)) ∷ []) empty,
      )

  -- One access unit, with both ends ready for the next.
  access_unit_arrives :
      (vs : VideoSender) (r : VideoReceiver) (au : Bytes) (duration : Duration) (clock : ℕ → ℕ)
      (i : ℕ)
      → Linked c vs r i
      → Sendable au
      → (vs.keyframe_required ≡ false) ⊎ (au_has_idr au ≡ true)
      → IsIndex (i + payload_count au)
      → let (vs', packets) = protect_access_unit c vs au duration in
        let (r', calls) = receive_all c r (stamped clock packets) in
        Linked c vs' r' (i + payload_count au)
        × (vs'.keyframe_required ≡ false)
        × (frames_of calls ≡ (start_code ++ packed_access_unit au) ∷ [])
  unfolding gather
  access_unit_arrives vs r au duration clock i link ok k b =
      let packed = ok.packed_is in
      let (x, xs, payloads) = package-some ok.first ok.rest in
      let here : package_h264_nalu (packed_access_unit au) ≡ x ∷ xs =
        ap package_h264_nalu packed ∙ payloads in
      let whole =
        package-depacketize ok.first ok.rest ok.packed_bytes.0 ok.size_bound r.depack ok.type_low
          ok.type_high in
      let whole' : depacketize_all r.depack (x ∷ xs) ≡ (ok.first ∷ ok.rest) ∷ [] =
        rw payloads at whole in
      let valid = rw payloads at (package-IsPayload (ok.first ∷ ok.rest) ok.packed_bytes) in
      let size = ap length here in
      let frame = ap (gather []) whole' in
      let out =
        protect_access_unit-open vs au duration link.is_active link.not_gated k
          (rw packed (omega arith)) in
      let (linked, clear, frames) =
        payloads_arrive vs r (au_has_idr au) duration clock i x xs link valid k (omega arith)
          (rw frame (omega arith)) in
      rw (out, here, packed) (linked, clear, frames ∙ ap (λ u. u ∷ []) frame)

  receive_all-append :
      (r : VideoReceiver) (xs ys : List (ℕ × Bytes))
      → frames_of (receive_all c r (xs ++ ys)).1
        ≡ frames_of (receive_all c r xs).1 ++ frames_of (receive_all c (receive_all c r xs).0 ys).1
  unfolding receive_all frames_of
  receive_all-append r [] ys = refl
  receive_all-append r ((now, x) ∷ xs) ys =
      let next = (on_relay_packet c r now x).0 in
      let calls = (on_relay_packet c r now x).1 in
      frames_of-append calls _
      ∙ ap (◌++◌ (frames_of calls)) (receive_all-append next xs ys)
      ∙ sym (append_assoc (frames_of calls) _ _)
      ∙ ap (λ f. f ++ frames_of (receive_all c (receive_all c next xs).0 ys).1)
          (sym (frames_of-append calls _))

  -- Access units one after the other: all their packets.
  unfoldable pub send_units : VideoSender → List (Bytes × Duration) → List Bytes
  send_units vs [] = []
  send_units vs ((au, duration) ∷ units) =
      let (next, packets) = protect_access_unit c vs au duration in packets ++ send_units next units

  -- From a sender with open gates to a receiver keyed alike, both at the same packet and the
  -- receiver holding no part of an access unit, each of a run of access units that start with an
  -- IDR, or with no keyframe required, gives the sink of the other side exactly one frame, in
  -- order: its NAL units without empty ones and delimiters, behind one start code, if what is
  -- packed starts like a unit of type 1 to 23 and has at most 4 MiB, the indices stay below 2^48,
  -- and no packet is lost.
  pub video_arrives :
      (vs : VideoSender) (r : VideoReceiver) (units : List (Bytes × Duration)) (clock : ℕ → ℕ)
      (i : ℕ)
      → Linked c vs r i
      → All SendableUnit units
      → (vs.keyframe_required ≡ false) ⊎ StartsWithIdr units
      → IsIndex (i + total_count units)
      → frames_of (receive_all c r (stamped clock (send_units vs units))).1 ≡ map frame_of units
  unfolding send_units stamped receive_all frames_of
  video_arrives vs r [] clock i link ok k b = refl
  video_arrives vs r ((au, duration) ∷ units) clock i link (here, ok) k b =
      let (linked, clear, frames) =
        access_unit_arrives vs r au duration clock i link here k (omega arith) in
      let (next, packets) = protect_access_unit c vs au duration in
      let (later, cut) = stamped-append clock packets (send_units next units) in
      let rest =
        video_arrives next (receive_all c r (stamped clock packets)).0 units later
          (i + payload_count au) linked ok (inl clear) (omega arith) in
      ap (λ xs. frames_of (receive_all c r xs).1) cut
      ∙ receive_all-append r (stamped clock packets) (stamped later (send_units next units))
      ∙ rw (frames, rest) refl
