-- ===== src/Stun/Subscriptions.antt =====
-- The protobuf values of stun/stun.go and the allocate requests that carry them.
use meowcaller.Base.{
  ℕ, ◌+◌, ◌*◌, Bool, false, Option, none, some, List, [], ◌∷◌, ◌++◌, ◌==◌, if◌then◌else◌, length,
  Bytes, be32,
}
use meowcaller.Srtp.Crypto.{Crypto}
use meowcaller.Srtp.Sframe.{uvarint_bytes}
use meowcaller.Stun.{
  stun_attr, encode_stun_request, create_wasm_relay_endpoint_attr, attr_relay_token,
  attr_stream_descriptors, attr_wasm_relay_endpoint, attr_sender_subscriptions_v2,
  msg_allocate_request,
}

-- `pbTag`, on the bytes that it appends; `field<<3|wire` for a wire type below 8.
unfoldable pub pb_tag : ℕ → ℕ → Bytes
pb_tag field wire = uvarint_bytes 10 (field * 8 + wire)

-- A varint field.
unfoldable pub pb_varint : ℕ → ℕ → Bytes
pb_varint field n = pb_tag field 0 ++ uvarint_bytes 10 n

-- `pbZigzag` of a number that is not negative, as every caller's is: an `int64` of a `uint32`.
abbrev pub pb_zigzag : ℕ → ℕ
pb_zigzag n = n * 2

-- `pbLenDelim`, on the bytes that it appends.
unfoldable pub pb_len_delim : ℕ → Bytes → Bytes
pb_len_delim field b = pb_tag field 2 ++ (uvarint_bytes 10 (length b) ++ b)

-- `CreateNativeSenderSubscription`
unfoldable pub create_native_sender_subscription : ℕ → Bytes
create_native_sender_subscription ssrc = 1 ∷ be32 ssrc

-- `CreateVoipSenderSubscriptions`
unfoldable pub create_voip_sender_subscriptions : ℕ → Bytes
create_voip_sender_subscriptions ssrc =
    pb_len_delim 1 (pb_varint 3 ssrc ++ (pb_varint 5 0 ++ pb_varint 6 0))

abbrev audio_layer : Bytes
audio_layer = b'a' ∷ b'u' ∷ b'd' ∷ b'i' ∷ b'o' ∷ []

abbrev opus_payload : Bytes
opus_payload = b'O' ∷ b'P' ∷ b'U' ∷ b'S' ∷ []

abbrev participant_layer : Option ℕ → Bytes
participant_layer none = []
participant_layer (some pid) =
    pb_len_delim 2 (pb_varint 1 (pb_zigzag pid) ++ pb_len_delim 2 audio_layer)

-- `CreateApkSenderSubscriptions`
unfoldable pub create_apk_sender_subscriptions : ℕ → Option ℕ → Bytes
create_apk_sender_subscriptions ssrc pid =
    pb_len_delim 1 (pb_len_delim 1 (pb_varint 1 (pb_zigzag ssrc) ++ participant_layer pid))

-- `CreateApkStreamDescriptors`
unfoldable pub create_apk_stream_descriptors : ℕ → Bytes
create_apk_stream_descriptors ssrc = pb_len_delim 1 (
    pb_len_delim 1 audio_layer
    ++ (pb_len_delim 2 opus_payload ++ (pb_varint 3 (pb_zigzag ssrc) ++ pb_varint 4 0)))

-- `wasmStreamDescriptorPlan`: participant and layer of each stream.
abbrev pub wasm_stream_descriptor_plan : List (ℕ × ℕ)
wasm_stream_descriptor_plan =
    (0, 0) ∷ (0, 1) ∷ (0, 2) ∷ (1, 0) ∷ (1, 1) ∷ (1, 2) ∷ (2, 0) ∷ (2, 1) ∷ (2, 2) ∷ []

abbrev optional_varint : ℕ → ℕ → Bytes
optional_varint field n = if n == 0 then [] else pb_varint field n

-- The loop of `CreateWasmStreamDescriptors`: a stream with SSRC 0 is left out.
unfoldable pub stream_descriptors : List (ℕ × ℕ) → List ℕ → Bytes
stream_descriptors [] ssrcs = []
stream_descriptors (p ∷ plan) [] = []
stream_descriptors (p ∷ plan) (ssrc ∷ ssrcs) =
    let rest = stream_descriptors plan ssrcs in
    let inner = optional_varint 1 p.0 ++ (optional_varint 2 p.1 ++ pb_varint 3 ssrc) in
    if ssrc == 0 then rest else pb_len_delim 1 inner ++ rest

-- `CreateWasmStreamDescriptors`
unfoldable pub create_wasm_stream_descriptors : List ℕ → Bytes
create_wasm_stream_descriptors ssrcs = stream_descriptors wasm_stream_descriptor_plan ssrcs

-- `wasmStreamDescriptorsTemplate`
abbrev pub wasm_stream_descriptors_template : Bytes
wasm_stream_descriptors_template =
    0x0a ∷ 0x06 ∷ 0x18 ∷ 0xca ∷ 0xbc ∷ 0x85 ∷ 0xae ∷ 0x04 ∷ 0x0a ∷ 0x08 ∷ 0x10 ∷ 0x01 ∷ 0x18 ∷ 0xa5
    ∷ 0xac ∷ 0xaf ∷ 0xae ∷ 0x0a ∷ 0x0a ∷ 0x08 ∷ 0x10 ∷ 0x02 ∷ 0x18 ∷ 0xd6 ∷ 0xa4 ∷ 0xe6 ∷ 0xf9
    ∷ 0x0f ∷ 0x0a ∷ 0x08 ∷ 0x08 ∷ 0x01 ∷ 0x18 ∷ 0xf7 ∷ 0xdd ∷ 0x9e ∷ 0xb6 ∷ 0x0a ∷ 0x0a ∷ 0x0a
    ∷ 0x08 ∷ 0x01 ∷ 0x10 ∷ 0x01 ∷ 0x18 ∷ 0xab ∷ 0xcc ∷ 0xb1 ∷ 0xf3 ∷ 0x0d ∷ 0x0a ∷ 0x0a ∷ 0x08
    ∷ 0x01 ∷ 0x10 ∷ 0x02 ∷ 0x18 ∷ 0xda ∷ 0xda ∷ 0xef ∷ 0x8a ∷ 0x05 ∷ 0x0a ∷ 0x08 ∷ 0x08 ∷ 0x02
    ∷ 0x18 ∷ 0xc5 ∷ 0xe9 ∷ 0xec ∷ 0x8e ∷ 0x0b ∷ 0x0a ∷ 0x0a ∷ 0x08 ∷ 0x02 ∷ 0x10 ∷ 0x01 ∷ 0x18
    ∷ 0xfd ∷ 0xc2 ∷ 0xb1 ∷ 0xb6 ∷ 0x0f ∷ 0x0a ∷ 0x0a ∷ 0x08 ∷ 0x02 ∷ 0x10 ∷ 0x02 ∷ 0x18 ∷ 0xb0
    ∷ 0x97 ∷ 0xf7 ∷ 0xb2 ∷ 0x09 ∷ []

module _ (c : Crypto) (crc32 : Bytes → ℕ) (transaction_id relay_token : Bytes) where
  -- `buildWasmStunAllocateRequest`
  unfoldable pub build_wasm_allocate : Bytes → Bytes → Option Bytes → Bytes
  build_wasm_allocate endpoint_xor descriptors integrity_key =
      encode_stun_request c crc32 msg_allocate_request transaction_id
        (stun_attr attr_relay_token relay_token
          ++ (stun_attr attr_stream_descriptors descriptors
              ++ stun_attr attr_wasm_relay_endpoint (create_wasm_relay_endpoint_attr endpoint_xor)))
        integrity_key false

  -- `BuildWasmStunAllocateRequest`
  unfoldable pub build_wasm_stun_allocate_request : Bytes → Option Bytes → Bytes
  build_wasm_stun_allocate_request endpoint_xor integrity_key =
      build_wasm_allocate endpoint_xor wasm_stream_descriptors_template integrity_key

  -- `BuildWasmStunAllocateRequestWithStreamSsrcs`
  unfoldable pub build_wasm_stun_allocate_request_with_stream_ssrcs :
      Bytes → List ℕ → Option Bytes → Bytes
  build_wasm_stun_allocate_request_with_stream_ssrcs endpoint_xor stream_ssrcs integrity_key =
      build_wasm_allocate endpoint_xor (create_wasm_stream_descriptors stream_ssrcs) integrity_key

  -- `BuildAndroidStunAllocateRequest`
  unfoldable pub build_android_stun_allocate_request : ℕ → Option ℕ → Option Bytes → Bool → Bytes
  build_android_stun_allocate_request ssrc pid integrity_key include_fingerprint =
      encode_stun_request c crc32 msg_allocate_request transaction_id
        (stun_attr attr_relay_token relay_token
          ++ (stun_attr attr_sender_subscriptions_v2 (create_apk_sender_subscriptions ssrc pid)
              ++ stun_attr attr_stream_descriptors (create_apk_stream_descriptors ssrc)))
        integrity_key include_fingerprint
