-- ===== src/Media/Receive/Units.antt =====
-- The packets of one access unit at the receiver.
use meowcaller.Base.{
  ℕ, suc, ◌+◌, ◌<◌, ◌≡◌, sym, ap, ◌∙◌, true, false, ◌&&◌, List, [], ◌∷◌, ◌++◌, append-nil, arith,
  ltb, length, Bytes,
}
use meowcaller.Srtp.Crypto.{Crypto}
use meowcaller.Srtp.Roc.Exact.{IsIndex}
use meowcaller.Srtp.E2e.{E2eSrtpKeys}
use meowcaller.Rtp.H264.{depacketize}
use meowcaller.Rtp.H264.Fragments.{depacketize_all}
use meowcaller.Session.Pipeline.Packets.{IsPacket}
use meowcaller.Media.Video.Packets.{UnitPackets, last_packet, more_packets}
use meowcaller.Media.Receive.{VideoReceiver, gather, on_relay_packet, receive_all}
use meowcaller.Media.Receive.Steps.{
  frames_of, frames_of-append, gather-append, stamped, ReceivingVideo, on_relay_packet_lem,
}

module _ (c : Crypto) (keys : E2eSrtpKeys) where
  -- The last packet of an access unit, and one in front of it.
  receive_last :
      (r : VideoReceiver) (i now : ℕ) (payload packet : Bytes)
      (sent : IsPacket c keys i payload packet)
      → sent.header.payload_type ≡ 97
      → sent.header.marker ≡ true
      → IsIndex i
      → ReceivingVideo c keys r.pipe i
      → 0 < length (gather r.unit (depacketize r.depack payload).1)
      → let (next, calls) = on_relay_packet c r now packet in
        ReceivingVideo c keys next.pipe (suc i)
        × (next.unit ≡ [])
        × (frames_of calls ≡ gather r.unit (depacketize r.depack payload).1 ∷ [])
  receive_last r i now payload packet sent h264 marked b v filled =
      let (ready, _, unit, frames) =
        on_relay_packet_lem c keys r i now payload packet sent h264 b v in
      let done : (sent.header.marker
            && ltb 0 (length (gather r.unit (depacketize r.depack payload).1)))
          ≡ true =
        ground (arith, marked, filled) in
      (ready, (rw done at unit), rw done at frames)

  receive_more :
      (r : VideoReceiver) (i now : ℕ) (payload packet : Bytes)
      (sent : IsPacket c keys i payload packet)
      → sent.header.payload_type ≡ 97
      → sent.header.marker ≡ false
      → IsIndex i
      → ReceivingVideo c keys r.pipe i
      → let (next, calls) = on_relay_packet c r now packet in
        ReceivingVideo c keys next.pipe (suc i)
        × (next.depack ≡ (depacketize r.depack payload).0)
        × (next.unit ≡ gather r.unit (depacketize r.depack payload).1)
        × (frames_of calls ≡ [])
  receive_more r i now payload packet sent h264 marked b v =
      let (ready, depack, unit, frames) =
        on_relay_packet_lem c keys r i now payload packet sent h264 b v in
      (ready, depack, (rw marked at unit), rw marked at frames)

  -- The packets of an access unit give the sink one frame, of all its units.
  pub receive_unit :
      (r : VideoReceiver) (clock : ℕ → ℕ) {i : ℕ} {packets payloads : List Bytes}
      → UnitPackets c keys i packets payloads
      → IsIndex (i + length payloads)
      → ReceivingVideo c keys r.pipe i
      → 0 < length (gather r.unit (depacketize_all r.depack payloads))
      → let (next, calls) = receive_all c r (stamped clock packets) in
        ReceivingVideo c keys next.pipe (i + length payloads)
        × (next.unit ≡ [])
        × (frames_of calls ≡ gather r.unit (depacketize_all r.depack payloads) ∷ [])
  unfolding receive_all stamped depacketize_all
  receive_unit r clock (last_packet i payload packet sent marked h264) b v filled =
      let units = append-nil (depacketize r.depack payload).1 in
      let filled' : 0 < length (gather r.unit (depacketize r.depack payload).1) =
        rw units at filled in
      let (ready, unit, frames) =
        receive_last r i (clock 0) payload packet sent h264 marked (omega arith) v filled' in
      let next : i + 1 ≡ suc i = omega arith in
      rw next (
        ready,
        unit,
        ap frames_of (append-nil (on_relay_packet c r (clock 0) packet).1) ∙ rw units frames,
      )
  receive_unit r clock
        (more_packets i payload packet {packets = packets} {payloads = payloads} sent marked h264
          rest)
        b v filled =
      let (ready, depack, unit, frames) =
        receive_more r i (clock 0) payload packet sent h264 marked (omega arith) v in
      let next = (on_relay_packet c r (clock 0) packet).0 in
      let all : gather next.unit (depacketize_all next.depack payloads)
          ≡ gather r.unit (
              (depacketize r.depack payload).1
              ++ depacketize_all (depacketize r.depack payload).0 payloads) =
        rw (unit, depack) (sym (gather-append r.unit (depacketize r.depack payload).1 _)) in
      let (ready', unit', frames') =
        receive_unit next (λ k. clock (suc k)) rest (omega arith) ready (rw all filled) in
      let size : i + suc (length payloads) ≡ suc i + length payloads = omega arith in
      rw size (
        ready',
        unit',
        frames_of-append (on_relay_packet c r (clock 0) packet).1 _
            ∙ rw frames (frames' ∙ ap (λ u. u ∷ []) all),
      )
