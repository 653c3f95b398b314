-- ===== src/Session/Pipeline/Tests.antt =====
-- Pipelines with sample keys.
use meowcaller.Base.{
  ℕ, ◌≡◌, refl, ◌≢◌, true, false, none, some, List, [], ◌∷◌, ◌++◌, map, arith, replicate, Bytes,
  IsU8,
}
use meowcaller.Srtp.Crypto.{xor_stream}
use meowcaller.Srtp.Sample.{sample_crypto}
use meowcaller.Srtp.Roc.Exact.{seq_of, roc_of}
use meowcaller.Srtp.Warp.{append_warp_mi_tag}
use meowcaller.Srtp.E2e.{E2eSrtpKeys, build_e2e_rtp_iv, crypt_payload}
use meowcaller.Srtp.E2e.Crypt.{IsKeys}
use meowcaller.Rtp.Header.{RtpHeader, encode_rtp_header}
use meowcaller.Rtp.Header.RoundTrip.{IsHeader}
use meowcaller.Rtp.Stream.{new_rtp_stream}
use meowcaller.Session.Pipeline.{MediaPipeline, new_media_pipeline}
use meowcaller.Session.Pipeline.Packets.{IsPacket}
use meowcaller.Session.Pipeline.Delivery.{
  send_audio, receive_audio, payload_of, Arrivals, over, arrive, Receiving, receive_audio-Arrivals,
}
use meowcaller.Session.Pipeline.EndToEnd.{end_to_end}
use meowcaller.Session.Pipeline.Nonces.{packet_ivs_distinct}

abbrev sample_payloads : List Bytes
sample_payloads = (0x48 ∷ 1 ∷ 2 ∷ []) ∷ (0x88 ∷ []) ∷ (0x48 ∷ 3 ∷ []) ∷ []

end_to_end_example :
    (tx rx : MediaPipeline) × (packets : List Bytes) × (new_media_pipeline sample_crypto
        (replicate 32 4)
        (b'a' ∷ [])
        (b'b' ∷ [])
        5
        960
      ≡ some tx)
    × (new_media_pipeline sample_crypto (replicate 32 4) (b'b' ∷ []) (b'a' ∷ []) 6 960 ≡ some rx)
    × (send_audio sample_crypto tx sample_payloads ≡ map some packets)
    × (map payload_of (receive_audio sample_crypto rx packets) ≡ map some sample_payloads)
end_to_end_example =
    end_to_end sample_crypto (replicate 32 4) (b'a' ∷ []) (b'b' ∷ []) 5 960 6 960 sample_payloads
      (omega arith) (omega arith) (omega arith)
      ((omega arith, omega arith), ((omega arith, omega arith), ((omega arith, omega arith), tt)))

packet_ivs_distinct_example :
    build_e2e_rtp_iv (replicate 14 2) 5 (roc_of 65535) (seq_of 65535)
    ≢ build_e2e_rtp_iv (replicate 14 2) 5 (roc_of 131071) (seq_of 131071)
packet_ivs_distinct_example =
    packet_ivs_distinct (replicate 14 2) 5 5 65535 131071 (omega arith) refl (omega arith)
      (omega arith) (omega arith) (omega arith) (omega arith)

abbrev sample_keys : E2eSrtpKeys
sample_keys = record {
  cipher_key = replicate 16 1;
  salt = replicate 14 2;
  auth_key = replicate 20 3;
}

sample_keys-IsKeys : IsKeys sample_crypto sample_keys
sample_keys-IsKeys = record { length-cipher_key = refl; length-salt = refl; length-auth_key = refl }

abbrev header_at : ℕ → RtpHeader
header_at i = record {
  marker = false;
  payload_type = 120;
  sequence_number = seq_of i;
  timestamp = 0;
  ssrc = 5;
  extension_word = none;
  video_extension = none;
}

header_at-IsHeader : (i : ℕ) → IsHeader (header_at i)
header_at-IsHeader i = record {
  payload_type_bound = omega arith;
  sequence_bound = omega arith;
  timestamp_bound = omega arith;
  ssrc_bound = omega arith;
  extension_valid = tt;
}

-- The payload of one byte, encrypted at an index, and its packet.
abbrev body_at : ℕ → ℕ → Bytes
body_at i x =
    xor_stream
      (sample_crypto.keystream sample_keys.cipher_key
        (build_e2e_rtp_iv sample_keys.salt 5 (roc_of i) (seq_of i)))
      0 (x ∷ [])

abbrev packet_at : ℕ → ℕ → Bytes
packet_at i x =
    append_warp_mi_tag sample_crypto sample_keys.auth_key
      (encode_rtp_header (header_at i) ++ body_at i x) (roc_of i) 4

packet_at-IsPacket :
    (i x : ℕ) → IsU8 x → IsPacket sample_crypto sample_keys i (x ∷ []) (packet_at i x)
packet_at-IsPacket i x b = record {
  header = header_at i;
  body = body_at i x;
  header_valid = header_at-IsHeader i;
  seq_is = refl;
  payload_valid = ((b, tt), omega arith);
  encrypted = unfold crypt_payload in refl;
  packet_is = refl;
}

abbrev receiver : MediaPipeline
receiver = record {
  send_keys = sample_keys;
  recv_keys = sample_keys;
  tag_len = 4;
  stream = new_rtp_stream 6 960 false;
  send_roc = record { roc = 0; last_seq = 0; initialized = false };
  recv_roc = record { roc = 0; s_l = 65534; initialized = true };
  packets_sent = 0;
  octets_sent = 0;
  rtp_timestamp = 0;
}

receiver-Receiving : Receiving sample_crypto sample_keys receiver 65534
receiver-Receiving = record {
  keys_valid = sample_keys-IsKeys;
  same_keys = refl;
  tag_is = refl;
  tracking = record { started = refl; seq_bound = omega arith; roc_bound = omega arith };
  highest_is = refl;
}

-- The packet behind the wrap overtakes the one in front of it, and the one between is lost.
overtaken :
    Arrivals sample_crypto sample_keys 65534
      (packet_at 65537 9 ∷ packet_at 65535 8 ∷ [])
      ((9 ∷ []) ∷ (8 ∷ []) ∷ [])
overtaken =
    arrive 65537 (9 ∷ []) (packet_at 65537 9) (packet_at-IsPacket 65537 9 (omega arith))
      (omega arith) (omega arith) (omega arith)
      (arrive 65535 (8 ∷ []) (packet_at 65535 8) (packet_at-IsPacket 65535 8 (omega arith))
        (omega arith) (omega arith) (omega arith) over)

receive_audio-Arrivals_example :
    map payload_of
      (receive_audio sample_crypto receiver (packet_at 65537 9 ∷ packet_at 65535 8 ∷ []))
    ≡ some (9 ∷ []) ∷ some (8 ∷ []) ∷ []
receive_audio-Arrivals_example =
    receive_audio-Arrivals sample_crypto sample_keys receiver receiver-Receiving overtaken
