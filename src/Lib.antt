-- ===== src/Lib.antt =====
-- meowcaller: a WhatsApp voice and video call library in Go. This is the model of the parts that
-- carry its logic, with the theorems that make them correct.
--
-- How the parts work together. `session.go` puts a media stream together: an audio payload is
-- given a header by a sequencer (`rtp/rtp.go`), is encrypted under keys derived from the call key
-- and the participant id (`srtp/e2e.go`, `util/participant.go`), with a rollover counter that a
-- tracker keeps, and is tagged (`srtp/warp.go`); the receive side cuts the tag off, parses the
-- header, guesses the rollover counter and decrypts. `rtp/h264.go` makes payloads of video,
-- `rtp/rtcp.go` reports on the streams, `srtp/sframe.go` is the second encryption of a frame, and
-- `mlow/red.go` takes redundant audio apart, and `mlow/rangecoder.go` writes and reads the symbols of
-- an mlow frame. `session.go` also holds the phases of a call, and
-- `call.go` the registry of calls. `engine_media.go` connects a call to its relay: the video sender
-- packs and protects access units behind its gates, the SRTCP ends exchange reports, and the receive
-- loop sorts what comes (`relay/relay.go`) into video, which it depacketizes for the sink, and
-- application data (`appdata.go`), which carries reactions in several copies. `stun/stun.go` builds
-- and reads the messages to the relay, `player.go` gives a call the frames of a source, and
-- `audio_playout.go` lines up the audio that comes in.
--
-- Which file models what, as `<file of the repository>: <module>`, with the names of the source in
-- snake case and one function for each function or method:
--   util/participant.go: Util.Participant
--   srtp/e2e.go: Srtp.E2e (keys, IV, payloads, SRTCP), Srtp.Roc (the two trackers)
--   srtp/warp.go: Srtp.Warp
--   srtp/sframe.go: Srtp.Sframe
--   srtp/hbh.go: Srtp.Hbh
--   rtp/rtp.go: Rtp.Header (its parsers in Rtp.Header.Parser), Rtp.Payload, Rtp.Stream
--   rtp/h264.go: Rtp.H264
--   rtp/rtcp.go: Rtp.Rtcp, Rtp.Reception for RtcpReceptionStats, and Media.Reports for the CNAME
--   mlow/red.go: Mlow.Red
--   mlow/toc.go: Mlow.Toc
--   mlow/decoder.go: Mlow.Container (splitContainer)
--   mlow/rangecoder.go: Mlow.Range.Decoder and Mlow.Range.Symbols (RangeDecoder), Mlow.Range.Encoder
--     and Mlow.Range.Flush (RangeEncoder); Mlow.Range.Codec has the runs of symbols that are proved on
--   stun/stun.go: Stun, Stun.Parse, Stun.Subscriptions
--   relay/relay.go: Media.Classify (ClassifyRelayPacket)
--   engine_media.go: Media.Video (the video sender), Media.Reports (the SRTCP ends), Media.Receive
--     (the video branch of the receive loop), and Media.AppData.Stream for its app-data branch
--   appdata.go: Media.AppData (the encoding), Media.AppData.Stream (both ends), Media.Classify
--   player.go: Media.Player
--   audio_playout.go: Media.Playout
--   session.go: Session.Phase, Session.Pipeline
--   call.go: Session.Registry
-- The proofs stand in child modules named for what they prove, the examples in modules `Tests`.
--
-- How code becomes definitions. A struct is a record, and a method with a pointer receiver
-- returns the new record with its result. A byte slice is a list of numbers below 256; a w-bit
-- integer is a number whose wrap is written out as `% 2 ^ w`. An error, and a result that comes
-- with `ok` false, is `none`; a method that moves its state on before it fails returns the moved
-- state with `none`. Each method that holds a mutex is one step, so that runs of operations are
-- lists of them. Log calls are left out.
--
-- Parameters. `Srtp.Crypto` has AES-CTR, HMAC-SHA1 and HKDF-SHA256 of Go's standard library,
-- and `Srtp.Sframe` has AES-GCM and `Srtp.Hbh` the AES block, each with what their
-- documentation says of sizes, errors and, for GCM, that `Open` undoes `Seal`. `Media.AppData`
-- has what appdata.go uses of protowire and unicode/utf8: what is appended is consumed again,
-- and a tag has a byte. CRC-32 is a function of bytes, and the channel to the relay one that
-- takes or refuses each packet. The varints of encoding/binary are written out, and of
-- strings.TrimSpace the ASCII spaces.
--
-- Loops. The loop over a video extension runs on fuel with `out_of_fuel` as a result, and gets
-- one round for each byte. The loops over H.264 fragments, aggregates, Annex-B data,
-- compound RTCP packets, RED headers and AES-ICM blocks take a byte at least in each round, and
-- get the length of their data as fuel.
--
-- Bounds. Packet indices have 48 bits: 32 of the rollover counter and 16 of the sequence number.
-- Audio packets of one pipeline are counted from index 1. A fragmented NAL unit has at most 4
-- MiB, which is the limit of the depacketizer.
--
-- The loops over STUN attributes and over application data take at least a header or a tag in each
-- round, and get the length of their data as fuel as well. The scaling loops of the range coder run
-- three rounds, which bring any range but 0 above 2^23; its loops over windows and the last bits run as many rounds as their counts have bytes.
--
-- Not modelled: the engine with its goroutines (engine.go) and the rest of engine_media.go, the
-- audio and STUN branches of its receive loop among it; sockets, signaling stanzas and devices,
-- which work through libraries outside the repository or are input and output; SSRC derivation;
-- the mlow codec between its framing and its range coder, which is tables and floating-point signal
-- processing. Diagnostics and the counters that only they read are left out.
pub mod Base
pub mod Util
pub mod Srtp
pub mod Rtp
pub mod Mlow
pub mod Session
pub mod Stun
pub mod Media
