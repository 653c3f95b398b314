-- ===== src/Rtp/Header/Tests.antt =====
-- Headers of a video and of an audio packet.
use meowcaller.Base.{◌≡◌, refl, true, none, some, [], ◌∷◌, ◌++◌, arith, Bytes}
use meowcaller.Rtp.Header.{
  RtpHeader, encode_rtp_header, rtp_header_byte_length, rtp_extension_profile_and_data,
}
use meowcaller.Rtp.Header.Parser.{parse_rtp_header}
use meowcaller.Rtp.Header.RoundTrip.{IsHeader, parse-encode}

abbrev video_header : RtpHeader
video_header = record {
  marker = true;
  payload_type = 97;
  sequence_number = 65535;
  timestamp = 3000;
  ssrc = 77;
  extension_word = none;
  video_extension = some (record {
    media_frame_info = 4;
    frame_number = some 513;
    initial_bandwidth = 0;
    short_offset = 65535;
    transport_sequence = 12;
  });
}

video_header-IsHeader : IsHeader video_header
video_header-IsHeader = record {
  payload_type_bound = omega arith;
  sequence_bound = omega arith;
  timestamp_bound = omega arith;
  ssrc_bound = omega arith;
  extension_valid = record {
    info_bound = omega arith;
    frame_bound = omega arith;
    bandwidth_bound = omega arith;
    offset_bound = omega arith;
    sequence_bound = omega arith;
  };
}

parse-encode_example :
    parse_rtp_header (encode_rtp_header video_header ++ (1 ∷ 2 ∷ [])) ≡ some video_header
parse-encode_example = parse-encode video_header (1 ∷ 2 ∷ []) video_header-IsHeader

abbrev short_packet : Bytes
short_packet =
    0x90 ∷ 120 ∷ 0 ∷ 1 ∷ 0 ∷ 0 ∷ 0 ∷ 0 ∷ 0 ∷ 0 ∷ 0 ∷ 5 ∷ 0xde ∷ 0xbe ∷ 0 ∷ 1 ∷ 1 ∷ 2 ∷ 3 ∷ 4 ∷ 9
    ∷ []

short_packet_length : rtp_header_byte_length short_packet ≡ some 20
short_packet_length = unfold rtp_header_byte_length in refl

short_packet_extension :
    rtp_extension_profile_and_data short_packet ≡ some (0xdebe, 1 ∷ 2 ∷ 3 ∷ 4 ∷ [])
short_packet_extension = unfold rtp_extension_profile_and_data in refl
