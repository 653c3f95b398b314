-- ===== src/Rtp/Header.antt =====
-- RTP headers with WhatsApp's extension block, of rtp/rtp.go: `RtpHeader`, `VideoRtpExtension`,
-- their encoders and parsers. A packet is a list of bytes; `nil` pointers are `none`.
pub mod Parser
pub mod Scan
pub mod Length
pub mod RoundTrip
mod Tests
use meowcaller.Base.{
  ◌&&◌, ℕ, zero, suc, ◌+◌, ◌-◌, ◌*◌, ◌/◌, ◌%◌, bit_or, Bool, not, ◌||◌, Option, none, some, [], ◌∷◌,
  ◌++◌, ltb, leb, ◌==◌, if◌then◌else◌, length, Bytes, u16, shr, low_bits, bit, byte_at, slice, be16,
  be32, read_be16,
}

abbrev pub rtp_version : ℕ
rtp_version = 2

abbrev pub whatsapp_rtp_extension_profile : ℕ
whatsapp_rtp_extension_profile = 0xdebe

abbrev pub whatsapp_rtp_header_size : ℕ
whatsapp_rtp_header_size = 16

abbrev pub whatsapp_rtp_header_dtx_size : ℕ
whatsapp_rtp_header_dtx_size = 20

-- `short_offset` is an int16, kept as its bit pattern.
pub record VideoRtpExtension : Type 0 where
  pub media_frame_info : ℕ
  pub frame_number : Option ℕ
  pub initial_bandwidth : ℕ
  pub short_offset : ℕ
  pub transport_sequence : ℕ

unfoldable pub display_orientation : VideoRtpExtension → ℕ
display_orientation e = low_bits (4 - low_bits e.media_frame_info 2) 2

-- `for len(ext)%4 != 0 { ext = append(ext, 0) }`: at most three rounds.
pad_word : ℕ → Bytes → Bytes
pad_word zero ext = ext
pad_word (suc fuel) ext =
    let more = pad_word fuel (ext ++ 0 ∷ []) in if length ext % 4 == 0 then ext else more

abbrev pub frame_number_bytes : Option ℕ → Bytes
frame_number_bytes none = []
frame_number_bytes (some n) = be16 n

abbrev frame_info_length : Option ℕ → ℕ
frame_info_length none = 1
frame_info_length (some n) = 3

-- `(*VideoRtpExtension).encode`
unfoldable pub encode : VideoRtpExtension → Bytes
unfolding pad_word
encode e =
    let head = bit_or 0x30 (frame_info_length e.frame_number - 1) ∷ e.media_frame_info ∷ [] in
    pad_word 3 (
      head
      ++ (frame_number_bytes e.frame_number
          ++ (0x51 ∷ be16 e.initial_bandwidth
              ++ (0x61 ∷ be16 e.short_offset ++ (0x91 ∷ be16 e.transport_sequence)))))

pub record RtpHeader : Type 0 where
  pub marker : Bool
  pub payload_type : ℕ
  pub sequence_number : ℕ
  pub timestamp : ℕ
  pub ssrc : ℕ
  pub extension_word : Option ℕ
  pub video_extension : Option VideoRtpExtension

abbrev extension_word_size : Option ℕ → ℕ
extension_word_size none = whatsapp_rtp_header_size
extension_word_size (some w) = whatsapp_rtp_header_dtx_size

-- `ByteSize`
unfoldable pub byte_size : RtpHeader → ℕ
byte_size h = elim h.video_extension [
  | some e ↦ whatsapp_rtp_header_size + length (encode e)
  | none ↦ extension_word_size h.extension_word
]

abbrev pub has_version_2 : Bytes → Bool
has_version_2 xs = low_bits (shr (byte_at xs 0) 6) 2 == rtp_version

-- `IsRtpVersion2`
unfoldable pub is_rtp_version2 : Bytes → Bool
is_rtp_version2 xs = not (ltb (length xs) 12) && has_version_2 xs

-- `RtpHeaderByteLength`; `none` is `(0, false)`.
unfoldable pub rtp_header_byte_length : Bytes → Option ℕ
rtp_header_byte_length xs =
    let header_len = 12 + low_bits (byte_at xs 0) 4 * 4 in
    let full_len = header_len + (4 + read_be16 xs (header_len + 2) * 4) in
    if ltb (length xs) 12
    then none
    else if not (has_version_2 xs)
    then none
    else if ltb (length xs) header_len
    then none
    else if not (bit (byte_at xs 0) 4 == 1)
    then some header_len
    else if ltb (length xs) (header_len + 4)
    then none
    else if ltb (length xs) full_len
    then none
    else some full_len

-- `RtpExtensionProfileAndData`
unfoldable pub rtp_extension_profile_and_data : Bytes → Option (ℕ × Bytes)
rtp_extension_profile_and_data xs =
    let extension_offset = 12 + low_bits (byte_at xs 0) 4 * 4 in
    let words = read_be16 xs (extension_offset + 2) in
    let data_start = extension_offset + 4 in
    let data_end = data_start + words * 4 in
    if ltb (length xs) 12 || not (has_version_2 xs)
    then none
    else if ltb (length xs) extension_offset || bit (byte_at xs 0) 4 == 0
    then none
    else if ltb (length xs) (extension_offset + 4)
    then none
    else if ltb (length xs) data_end
    then none
    else some (read_be16 xs extension_offset, slice data_start data_end xs)

abbrev video_extension_bytes : Option VideoRtpExtension → Bytes
video_extension_bytes none = []
video_extension_bytes (some e) = encode e

abbrev extension_words : RtpHeader → ℕ
extension_words h = elim h.video_extension [
  | some e ↦ u16 (length (encode e) / 4)
  | none ↦ elim h.extension_word [ some w ↦ 1 | none ↦ 0 ]
]

abbrev extension_body : ℕ → RtpHeader → Bytes
extension_body size h = elim h.video_extension [
  | some e ↦ encode e
  | none ↦ elim h.extension_word [ some w ↦ if leb 20 size then be32 w else [] | none ↦ [] ]
]

-- `EncodeRtpHeader`: the fields of `buf` in order. `buf[0] |= 0x10` and `buf[1] |= 0x80` set bits
-- that are clear before, so they add.
unfoldable pub encode_rtp_header : RtpHeader → Bytes
unfolding byte_size
encode_rtp_header h =
    let size = byte_size h in
    let first = 0x80 + (if ltb 12 size then 0x10 else 0) in
    let second = low_bits h.payload_type 7 + (if h.marker then 0x80 else 0) in
    first
    ∷ second
    ∷ (be16 h.sequence_number
        ++ (be32 h.timestamp
            ++ (be32 h.ssrc
                ++ ((if leb 16 size
                      then be16 whatsapp_rtp_extension_profile ++ be16 (extension_words h)
                      else [])
                    ++ extension_body size h))))
