-- ===== src/Rtp/Stream/Audio.antt =====
-- What `RtpStream` gives to a run of packets.
use meowcaller.Base.{
  ℕ, zero, suc, ◌+◌, ◌*◌, ◌≡◌, refl, Bool, true, false, not, ◌&&◌, ◌||◌, some, List, [], ◌∷◌, ◌++◌,
  arith, length, get_elem?, replicate, All, Bytes, IsU16, IsU32, u16, u32,
}
use meowcaller.Rtp.Header.{RtpHeader}
use meowcaller.Rtp.Header.RoundTrip.{IsHeader}
use meowcaller.Rtp.Payload.{is_opus_dtx_payload, is_opus_priming_payload}
use meowcaller.Rtp.Stream.{RtpStream, next_packet}

-- The headers of a run of payloads, none of which asks for a marker.
unfoldable pub send_all : RtpStream → List Bytes → RtpStream × List RtpHeader
send_all s [] = (s, [])
send_all s (p ∷ ps) =
    let (t, header) = next_packet s p false in
    let (u, headers) = send_all t ps in (u, header ∷ headers)

abbrev pub IsStream : RtpStream → Type 0
IsStream s = IsU16 s.seq × IsU32 s.timestamp

-- One packet of a stream.
pub next_packet-fields :
    (s : RtpStream) (p : Bytes)
    → IsStream s
    → let (t, header) = next_packet s p false in
      IsStream t
      × (t.seq ≡ u16 (s.seq + 1))
      × (t.timestamp ≡ u32 (s.timestamp + s.samples_per_packet))
      × (t.samples_per_packet ≡ s.samples_per_packet)
      × (t.ssrc ≡ s.ssrc)
      × (header.sequence_number ≡ s.seq)
      × (header.timestamp ≡ s.timestamp)
      × (header.ssrc ≡ s.ssrc)
unfolding next_packet
next_packet-fields s p h = ground arith

-- On an audio stream whose fields fit their widths, packet k of a run has the sequence number k
-- steps and the timestamp k packet durations from the start, both with their wrap, and the
-- stream's SSRC.
pub send_all-numbers :
    (s : RtpStream) (ps : List Bytes) (k : ℕ) (header : RtpHeader)
    → IsStream s
    → get_elem? (send_all s ps).1 k ≡ some header
    → (header.sequence_number ≡ u16 (s.seq + k))
      × (header.timestamp ≡ u32 (s.timestamp + k * s.samples_per_packet))
      × (header.ssrc ≡ s.ssrc)
unfolding send_all
send_all-numbers s [] k header h e = cc
send_all-numbers s (p ∷ ps) zero header h e = ground (arith, next_packet-fields s p h)
send_all-numbers s (p ∷ ps) (suc k) header h e =
    let f = next_packet-fields s p h in
    let r = send_all-numbers (next_packet s p false).0 ps k header f.0 e in
    (omega (arith, f, r), grind (arith, f, r), ground (arith, f, r))

abbrev pub is_speech : Bytes → Bool
is_speech p = not (is_opus_dtx_payload p) && not (is_opus_priming_payload p)

abbrev pub markers : List RtpHeader → List Bool
markers [] = []
markers (h ∷ hs) = h.marker ∷ markers hs

abbrev pub IsQuiet : Bytes → Type 0
IsQuiet p = is_speech p ≡ false

-- One packet: the marker, and the latch.
next_packet-latch :
    (s : RtpStream) (p : Bytes)
    → let (t, header) = next_packet s p false in
      (header.marker ≡ (is_speech p && not s.speech_started))
      × (t.speech_started ≡ (is_speech p || s.speech_started))
unfolding next_packet
next_packet-latch s p = ground arith

markers-latched :
    (s : RtpStream) (ps : List Bytes)
    → s.speech_started ≡ true
    → markers (send_all s ps).1 ≡ replicate (length ps) false
unfolding send_all
markers-latched s [] h = refl
markers-latched s (p ∷ ps) h =
    let f = next_packet-latch s p in
    ground (arith, f, markers-latched (next_packet s p false).0 ps (ground (arith, f)))

-- On a stream that has sent no speech, comfort noise and priming frames carry no marker, the
-- first speech frame carries it, and no frame after it does.
pub markers-send_all :
    (s : RtpStream) (quiet : List Bytes) (speech : Bytes) (later : List Bytes)
    → s.speech_started ≡ false
    → All IsQuiet quiet
    → is_speech speech ≡ true
    → markers (send_all s (quiet ++ speech ∷ later)).1
      ≡ replicate (length quiet) false ++ true ∷ replicate (length later) false
unfolding send_all
markers-send_all s [] speech later h q e =
    let f = next_packet-latch s speech in
    ground (arith, f, markers-latched (next_packet s speech false).0 later (ground (arith, f)))
markers-send_all s (p ∷ ps) speech later h (hp, q) e =
    let f = next_packet-latch s p in
    ground
      (arith, f, markers-send_all (next_packet s p false).0 ps speech later (ground (arith, f)) q e)

-- The header is one that the encoder and the parser agree on.
pub next_packet-IsHeader :
    (s : RtpStream) (p : Bytes) → IsStream s → IsU32 s.ssrc → IsHeader (next_packet s p false).1
unfolding next_packet
next_packet-IsHeader s p h r = record {
  payload_type_bound = ground arith;
  sequence_bound = ground arith;
  timestamp_bound = ground arith;
  ssrc_bound = ground arith;
  extension_valid = tt;
}
