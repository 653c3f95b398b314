-- ===== src/Rtp/Header/Length.antt =====
-- Sizes of encoded headers, and of the headers that the parsers find.
use meowcaller.Base.{
  ℕ, ◌+◌, ◌-◌, ◌*◌, ◌≤◌, ◌≡◌, inl, inr, Option, none, some, arith, Option-cases, length, drop,
  length-take, length-drop, Bytes, low_bits, byte_at, read_be16,
}
use meowcaller.Rtp.Header.{
  VideoRtpExtension, RtpHeader, encode, byte_size, encode_rtp_header, rtp_header_byte_length,
  rtp_extension_profile_and_data,
}

abbrev pub encoded_size : Option ℕ → ℕ
encoded_size none = 12
encoded_size (some n) = 16

pub length-encode : (e : VideoRtpExtension) → length (encode e) ≡ encoded_size e.frame_number
unfolding encode
length-encode e = ground arith

-- EncodeRtpHeader writes exactly as many bytes as ByteSize announces.
pub length-encode_rtp_header : (h : RtpHeader) → length (encode_rtp_header h) ≡ byte_size h
unfolding encode_rtp_header
length-encode_rtp_header h = elim (Option-cases h.video_extension) [
  | inl e ↦ ground arith
  | inr (v, e) ↦ ground (arith, length-encode v)
]

-- A header that RtpHeaderByteLength finds has at least 12 bytes and lies inside the packet.
pub rtp_header_byte_length_bounds :
    (xs : Bytes) (n : ℕ) → rtp_header_byte_length xs ≡ some n → (12 ≤ n) × (n ≤ length xs)
unfolding rtp_header_byte_length
rtp_header_byte_length_bounds xs n h = ground arith

-- The first byte behind the extension block.
abbrev pub extension_end : Bytes → ℕ
extension_end xs =
    let offset = 12 + low_bits (byte_at xs 0) 4 * 4 in offset + 4 + read_be16 xs (offset + 2) * 4

-- Where RtpExtensionProfileAndData finds an extension, RtpHeaderByteLength finds the header,
-- which ends where the extension ends.
pub extension_ends_header :
    (xs : Bytes) (profile : ℕ) (ext : Bytes)
    → rtp_extension_profile_and_data xs ≡ some (profile, ext)
    → (rtp_header_byte_length xs ≡ some (extension_end xs))
      × (length ext + 16 + low_bits (byte_at xs 0) 4 * 4 ≡ extension_end xs)
unfolding rtp_header_byte_length rtp_extension_profile_and_data
extension_ends_header xs profile ext h =
    let offset = 12 + low_bits (byte_at xs 0) 4 * 4 in
    let words = read_be16 xs (offset + 2) in
    ground (
      arith,
      length-take (offset + 4 + words * 4 - (offset + 4)) (drop (offset + 4) xs),
      length-drop (offset + 4) xs,
    )

-- No header is shorter than 16 bytes.
pub byte_size-ge : (h : RtpHeader) → 16 ≤ byte_size h
unfolding byte_size
byte_size-ge h = ground arith
