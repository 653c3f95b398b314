-- ===== src/Rtp/Stream/Tests.antt =====
-- Runs of both sequencers.
use meowcaller.Base.{
  ◌+◌, ◌*◌, ◌≡◌, refl, true, false, none, some, [], ◌∷◌, arith, get_elem?, Bytes, u16, u32,
}
use meowcaller.Rtp.Header.{RtpHeader}
use meowcaller.Rtp.Payload.{is_opus_dtx_payload, is_opus_priming_payload}
use meowcaller.Rtp.Stream.{RtpStream, VideoRtpStream, next_packet}
use meowcaller.Rtp.Stream.Audio.{send_all, send_all-numbers}
use meowcaller.Rtp.Stream.Video.{access_unit, IsVideoStream, unit_header, access_unit-headers}

abbrev sample_stream : RtpStream
sample_stream = record {
  ssrc = 5;
  seq = 65535;
  timestamp = 960;
  samples_per_packet = 960;
  speech_started = false;
  audio_packet_index = 0;
  warp_piggyback = false;
}

abbrev quiet : Bytes
quiet = 0x88 ∷ []

abbrev speech : Bytes
speech = 0x48 ∷ 1 ∷ 2 ∷ []

abbrev second_header : RtpHeader
second_header = record {
  marker = true;
  payload_type = 120;
  sequence_number = 0;
  timestamp = 1920;
  ssrc = 5;
  extension_word = none;
  video_extension = none;
}

second_header_sent :
    get_elem? (send_all sample_stream (quiet ∷ speech ∷ speech ∷ [])).1 1 ≡ some second_header
second_header_sent = unfold send_all next_packet is_opus_dtx_payload is_opus_priming_payload in refl

send_all-numbers_example :
    (second_header.sequence_number ≡ u16 (sample_stream.seq + 1))
    × (second_header.timestamp
        ≡ u32 (sample_stream.timestamp + 1 * sample_stream.samples_per_packet))
    × (second_header.ssrc ≡ sample_stream.ssrc)
send_all-numbers_example =
    send_all-numbers sample_stream (quiet ∷ speech ∷ speech ∷ []) 1 second_header
      (omega arith, omega arith) second_header_sent

abbrev sample_video : VideoRtpStream
sample_video = record {
  ssrc = 6;
  seq = 65534;
  timestamp = 4294967000;
  last_sent_timestamp = 0;
  sent = false;
  ts_stride = 3000;
  transport_sequence = 65535;
  frame_number = 65535;
  first_packet = true;
}

sample_video-IsVideoStream : IsVideoStream sample_video
sample_video-IsVideoStream = record {
  seq_bound = omega arith;
  timestamp_bound = omega arith;
  transport_bound = omega arith;
  frame_bound = omega arith;
}

access_unit-headers_example :
    get_elem? (access_unit 2 4 sample_video).1 1
    ≡ some (unit_header sample_video 4 (some 65535) 2 1)
access_unit-headers_example =
    access_unit-headers 2 4 sample_video 1 sample_video-IsVideoStream (omega arith)
