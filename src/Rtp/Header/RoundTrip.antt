-- ===== src/Rtp/Header/RoundTrip.antt =====
-- Parsing what was encoded, with any payload behind it.
use meowcaller.Base.{
  ℕ, ◌+◌, ◌<◌, ◌≡◌, refl, ap, ◌∙◌, Bool, Option, none, some, [], ◌++◌, arith, ◌>>=◌, loop_result,
  length, Bytes, IsU8, IsU16, IsU32, low_bits, byte_at, be32,
}
use meowcaller.Rtp.Header.{
  VideoRtpExtension, RtpHeader, encode, byte_size, encode_rtp_header, rtp_header_byte_length,
  rtp_extension_profile_and_data, whatsapp_rtp_extension_profile,
}
use meowcaller.Rtp.Header.Parser.{
  found_nothing, store, element, scan, complete, parse_whatsapp_video_extension, parse_rtp_header,
}
use meowcaller.Rtp.Header.Scan.{scan_short}
use meowcaller.Rtp.Header.Length.{extension_ends_header}

abbrev pub IsU16Option : Option ℕ → Type 0
IsU16Option none = Unit {0}
IsU16Option (some n) = IsU16 n

-- The fields fit their machine types.
pub record IsExtension (e : VideoRtpExtension) : Type 0 where
  pub info_bound : IsU8 e.media_frame_info
  pub frame_bound : IsU16Option e.frame_number
  pub bandwidth_bound : IsU16 e.initial_bandwidth
  pub offset_bound : IsU16 e.short_offset
  pub sequence_bound : IsU16 e.transport_sequence

abbrev IsExtensionOption : Option VideoRtpExtension → Type 0
IsExtensionOption none = Unit {0}
IsExtensionOption (some e) = IsExtension e

-- `EncodeRtpHeader` keeps seven bits of the payload type.
pub record IsHeader (h : RtpHeader) : Type 0 where
  pub payload_type_bound : h.payload_type < 128
  pub sequence_bound : IsU16 h.sequence_number
  pub timestamp_bound : IsU32 h.timestamp
  pub ssrc_bound : IsU32 h.ssrc
  pub extension_valid : IsExtensionOption h.video_extension

abbrev extension : ℕ → Option ℕ → ℕ → ℕ → ℕ → VideoRtpExtension
extension m f b o t = record {
  media_frame_info = m;
  frame_number = f;
  initial_bandwidth = b;
  short_offset = o;
  transport_sequence = t;
}

abbrev scanned : Bytes → Option VideoRtpExtension
scanned ext = loop_result (scan (length ext) ext found_nothing) >>= complete

scanned-encode :
    (m : ℕ) (f : Option ℕ) (b o t : ℕ)
    → IsExtension (extension m f b o t)
    → scanned (encode (extension m f b o t)) ≡ some (extension m f b o t)
unfolding scan element store encode
scanned-encode m none b o t v = ground arith
scanned-encode m (some n) b o t v = ground arith

-- The bytes of the extension block that `EncodeRtpHeader` writes.
abbrev extension_data : Option VideoRtpExtension → Option ℕ → Bytes
extension_data (some e) w = encode e
extension_data none (some w) = be32 w
extension_data none none = []

abbrev header : Bool → ℕ → ℕ → ℕ → ℕ → Option ℕ → Option VideoRtpExtension → RtpHeader
header m p s t r w v = record {
  marker = m;
  payload_type = p;
  sequence_number = s;
  timestamp = t;
  ssrc = r;
  extension_word = w;
  video_extension = v;
}

profile-encode_video :
    (k : Bool) (p s t r : ℕ) (w : Option ℕ) (m : ℕ) (f : Option ℕ) (b o q : ℕ) (payload : Bytes)
    → let v = extension m f b o q in
      rtp_extension_profile_and_data (encode_rtp_header (header k p s t r w (some v)) ++ payload)
      ≡ some (whatsapp_rtp_extension_profile, encode v)
unfolding rtp_extension_profile_and_data encode_rtp_header encode
profile-encode_video k p s t r w m none b o q payload = ground arith
profile-encode_video k p s t r w m (some n) b o q payload = ground arith

profile-encode :
    (k : Bool) (p s t r : ℕ) (w : Option ℕ) (v : Option VideoRtpExtension) (payload : Bytes)
    → rtp_extension_profile_and_data (encode_rtp_header (header k p s t r w v) ++ payload)
      ≡ some (whatsapp_rtp_extension_profile, extension_data v w)
profile-encode k p s t r none none payload =
    unfold rtp_extension_profile_and_data encode_rtp_header in ground arith
profile-encode k p s t r (some w) none payload =
    unfold rtp_extension_profile_and_data encode_rtp_header in ground arith
profile-encode k p s t r w (some v) payload =
    profile-encode_video k p s t r w v.media_frame_info v.frame_number v.initial_bandwidth
      v.short_offset v.transport_sequence payload

scanned-extension_data :
    (v : Option VideoRtpExtension) (w : Option ℕ)
    → IsExtensionOption v
    → scanned (extension_data v w) ≡ v
scanned-extension_data none none h = unfold scan in refl
scanned-extension_data none (some w) h = scan_short 4 (be32 w) (omega arith)
scanned-extension_data (some v) w h =
    scanned-encode v.media_frame_info v.frame_number v.initial_bandwidth v.short_offset
      v.transport_sequence h

parse_video-encode :
    (h : RtpHeader) (payload : Bytes)
    → IsHeader h
    → parse_whatsapp_video_extension (encode_rtp_header h ++ payload) ≡ h.video_extension
unfolding parse_whatsapp_video_extension
parse_video-encode h payload v =
    let found =
      profile-encode h.marker h.payload_type h.sequence_number h.timestamp h.ssrc h.extension_word
        h.video_extension payload in
    rw found (scanned-extension_data h.video_extension h.extension_word v.extension_valid)

first_byte-encode :
    (h : RtpHeader) (payload : Bytes) → low_bits (byte_at (encode_rtp_header h ++ payload) 0) 4 ≡ 0
unfolding encode_rtp_header
first_byte-encode h payload = ground arith

byte_size-extension_data :
    (h : RtpHeader) → byte_size h ≡ length (extension_data h.video_extension h.extension_word) + 16
unfolding byte_size
byte_size-extension_data h = ground arith

-- RtpHeaderByteLength finds in any packet that starts with an encoded header exactly ByteSize of
-- that header.
pub rtp_header_byte_length-encode :
    (h : RtpHeader) (payload : Bytes)
    → rtp_header_byte_length (encode_rtp_header h ++ payload) ≡ some (byte_size h)
rtp_header_byte_length-encode h payload =
    let xs = encode_rtp_header h ++ payload in
    let found =
      profile-encode h.marker h.payload_type h.sequence_number h.timestamp h.ssrc h.extension_word
        h.video_extension payload in
    let (size, end) = extension_ends_header xs _ _ found in
    size ∙ ap some (omega (arith, byte_size-extension_data h, first_byte-encode h payload, end))

-- ParseRtpHeader reads back from EncodeRtpHeader, whatever payload follows, every field of a
-- header whose fields fit their widths, the video extension included, except the audio extension
-- word, which it never sets.
pub parse-encode :
    (h : RtpHeader) (payload : Bytes)
    → IsHeader h
    → parse_rtp_header (encode_rtp_header h ++ payload) ≡ some (record h { extension_word = none })
unfolding parse_rtp_header
parse-encode h payload v =
    rw (rtp_header_byte_length-encode h payload, parse_video-encode h payload v)
      (unfold encode_rtp_header in ground arith)
