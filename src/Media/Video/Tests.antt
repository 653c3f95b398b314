-- ===== src/Media/Video/Tests.antt =====
-- A sender and a receiver on sample keys.
use meowcaller.Base.{
  ◌+◌, ◌*◌, ◌≤◌, ◌≡◌, refl, inl, inr, true, false, none, some, List, [], ◌∷◌, map, arith, replicate,
  Bytes,
}
use meowcaller.Srtp.Sample.{sample_crypto}
use meowcaller.Srtp.Roc.Exact.{IsIndex}
use meowcaller.Srtp.E2e.{E2eSrtpKeys}
use meowcaller.Srtp.E2e.Crypt.{IsKeys}
use meowcaller.Rtp.H264.{
  split_annex_b, split_from, annex_b_start_code_len, close_nalu, last_nalu, trim_zeros, au_has_idr,
  any_idr, package_h264_nalu,
}
use meowcaller.Rtp.Reception.{new_reception_stats}
use meowcaller.Rtp.Stream.{new_rtp_stream}
use meowcaller.Session.Pipeline.{MediaPipeline}
use meowcaller.Media.Video.{
  Duration, nanoseconds, negative, VideoSender, packed_access_unit, pack_units,
  video_rtp_duration_samples,
}
use meowcaller.Media.Video.Stride.{video_rtp_duration_samples-nearest}
use meowcaller.Media.Video.Gates.{send_unit, set_enabled, set_disabled, video_run, keyframe_gate}
use meowcaller.Media.Video.Delivery.{
  Sendable, Linked, send_units, video_arrives, frame_of, total_count,
}
use meowcaller.Media.Receive.{VideoReceiver, receive_all}
use meowcaller.Media.Receive.Steps.{frames_of, stamped}

abbrev sample_keys : E2eSrtpKeys
sample_keys = record {
  cipher_key = replicate 16 1;
  salt = replicate 14 2;
  auth_key = replicate 20 3;
}

sample_keys-IsKeys : IsKeys sample_crypto sample_keys
sample_keys-IsKeys = record { length-cipher_key = refl; length-salt = refl; length-auth_key = refl }

abbrev sample_pipeline : MediaPipeline
sample_pipeline = record {
  send_keys = sample_keys;
  recv_keys = sample_keys;
  tag_len = 4;
  stream = new_rtp_stream 6 960 false;
  send_roc = record { roc = 0; last_seq = 0; initialized = false };
  recv_roc = record { roc = 0; s_l = 0; initialized = false };
  packets_sent = 0;
  octets_sent = 0;
  rtp_timestamp = 0;
}

abbrev sample_sender : VideoSender
sample_sender = record {
  pipe = sample_pipeline;
  stream = record {
    ssrc = 6;
    seq = 1;
    timestamp = 0;
    last_sent_timestamp = 0;
    sent = false;
    ts_stride = 3000;
    transport_sequence = 0;
    frame_number = 1;
    first_packet = true;
  };
  ssrc = 6;
  frame = 0;
  logged = false;
  active = true;
  send_gated = false;
  keyframe_required = true;
}

abbrev sample_receiver : VideoReceiver
sample_receiver = record {
  pipe = sample_pipeline;
  reception = new_reception_stats;
  depack = record { fu_buf = []; fu_type = 0; fu_nri_f = 0; fu_active = false };
  orientation = none;
  unit = [];
}

sample-Linked : Linked sample_crypto sample_sender sample_receiver 1
sample-Linked = record {
  is_active = refl;
  not_gated = refl;
  sending = record {
    keys_valid = sample_keys-IsKeys;
    tag_is = refl;
    seq_is = refl;
    roc_ready = inl (refl, refl, omega arith);
    stream_valid = record {
      seq_bound = omega arith;
      timestamp_bound = omega arith;
      transport_bound = omega arith;
      frame_bound = omega arith;
    };
    ssrc_bound = omega arith;
  };
  receiving = record {
    keys_valid = sample_keys-IsKeys;
    same_keys = refl;
    tag_is = refl;
    next_in = inl (refl, refl, omega arith);
  };
  unit_empty = refl;
}

-- A delimiter and an IDR slice, and then a slice of type 1.
abbrev key_unit : Bytes
key_unit = 0 ∷ 0 ∷ 0 ∷ 1 ∷ 9 ∷ 16 ∷ 0 ∷ 0 ∷ 1 ∷ 0x65 ∷ 7 ∷ 8 ∷ []

abbrev delta_unit : Bytes
delta_unit = 0 ∷ 0 ∷ 1 ∷ 0x41 ∷ 5 ∷ []

key_unit-packed : packed_access_unit key_unit ≡ 0x65 ∷ 7 ∷ 8 ∷ []
unfolding split_annex_b split_from annex_b_start_code_len close_nalu last_nalu trim_zeros pack_units
key_unit-packed = refl

delta_unit-packed : packed_access_unit delta_unit ≡ 0x41 ∷ 5 ∷ []
unfolding split_annex_b split_from annex_b_start_code_len close_nalu last_nalu trim_zeros pack_units
delta_unit-packed = refl

key_unit-has_idr : au_has_idr key_unit ≡ true
unfolding au_has_idr any_idr split_annex_b split_from annex_b_start_code_len close_nalu last_nalu
    trim_zeros
key_unit-has_idr = refl

delta_unit-no_idr : au_has_idr delta_unit ≡ false
unfolding au_has_idr any_idr split_annex_b split_from annex_b_start_code_len close_nalu last_nalu
    trim_zeros
delta_unit-no_idr = refl

key_unit-Sendable : Sendable key_unit
key_unit-Sendable = record {
  first = 0x65;
  rest = 7 ∷ 8 ∷ [];
  packed_is = key_unit-packed;
  packed_bytes = (omega arith, (omega arith, (omega arith, tt)));
  type_low = omega arith;
  type_high = omega arith;
  size_bound = omega arith;
}

delta_unit-Sendable : Sendable delta_unit
delta_unit-Sendable = record {
  first = 0x41;
  rest = 5 ∷ [];
  packed_is = delta_unit-packed;
  packed_bytes = (omega arith, (omega arith, tt));
  type_low = omega arith;
  type_high = omega arith;
  size_bound = omega arith;
}

abbrev sample_units : List (Bytes × Duration)
sample_units = (key_unit, nanoseconds 33000000) ∷ (delta_unit, negative 0) ∷ []

few_packets : IsIndex (1 + total_count sample_units)
unfolding package_h264_nalu
few_packets = rw (key_unit-packed, delta_unit-packed) (omega arith)

video_arrives_example :
    frames_of
      (receive_all sample_crypto sample_receiver
        (stamped (λ k. 1000 + k) (send_units sample_crypto sample_sender sample_units))).1
    ≡ map frame_of sample_units
video_arrives_example =
    video_arrives sample_crypto sample_sender sample_receiver sample_units (λ k. 1000 + k) 1
      sample-Linked (key_unit-Sendable, (delta_unit-Sendable, tt)) (inr key_unit-has_idr)
      few_packets

keyframe_gate_example :
    video_run sample_crypto
      (record sample_sender { keyframe_required = false })
      (set_disabled
        ∷ set_enabled true
        ∷ set_enabled false
        ∷ send_unit (some (λ k packet. true)) delta_unit (negative 4)
        ∷ [])
    ≡ []
keyframe_gate_example =
    keyframe_gate sample_crypto (record sample_sender { keyframe_required = false }) set_disabled
      (set_enabled true
        ∷ set_enabled false
        ∷ send_unit (some (λ k packet. true)) delta_unit (negative 4)
        ∷ [])
      tt (tt, (tt, (delta_unit-no_idr, tt)))

video_rtp_duration_samples-nearest_example :
    let s = video_rtp_duration_samples (nanoseconds 33366667) in
    (33366667 * 90000 ≤ s * 1000000000 + 500000000)
    × (s * 1000000000 ≤ 33366667 * 90000 + 500000000)
video_rtp_duration_samples-nearest_example =
    video_rtp_duration_samples-nearest 33366667 (omega arith) (omega arith)
