-- ===== src/Stun.antt =====
-- stun/stun.go: the messages that a client sends to a relay, with MESSAGE-INTEGRITY and FINGERPRINT.
-- A transaction id is a list of 12 bytes. CRC-32 of hash/crc32 is a parameter.
pub mod Parse
pub mod Subscriptions
pub mod RoundTrip
mod Tests
use meowcaller.Base.{
  if◌then◌else◌, ℕ, ◌+◌, ◌-◌, ◌*◌, ◌%◌, bit_xor, Bool, true, false, not, ◌&&◌, Option, none, some,
  List, [], ◌∷◌, ◌++◌, leb, ◌==◌, length, replicate, Bytes, be16, be32,
}
use meowcaller.Srtp.Crypto.{Crypto}

abbrev pub stun_magic : ℕ
stun_magic = 0x2112a442

abbrev pub stun_fingerprint_xor : ℕ
stun_fingerprint_xor = 0x5354554e

abbrev pub stun_xor_port : ℕ
stun_xor_port = 0x2112

abbrev pub stun_xor_addr : Bytes
stun_xor_addr = 0x21 ∷ 0x12 ∷ 0xa4 ∷ 0x42 ∷ []

abbrev pub attr_message_integrity : ℕ
attr_message_integrity = 0x0008

abbrev pub attr_fingerprint : ℕ
attr_fingerprint = 0x8028

abbrev pub attr_error_code : ℕ
attr_error_code = 0x0009

abbrev pub attr_relay_token : ℕ
attr_relay_token = 0x4000

abbrev pub attr_stream_descriptors : ℕ
attr_stream_descriptors = 0x4024

abbrev pub attr_wasm_relay_endpoint : ℕ
attr_wasm_relay_endpoint = 0x0016

abbrev pub attr_sender_subscriptions_v2 : ℕ
attr_sender_subscriptions_v2 = 0x4025

abbrev pub msg_allocate_request : ℕ
msg_allocate_request = 0x0003

abbrev pub msg_binding_success : ℕ
msg_binding_success = 0x0101

abbrev pub msg_allocate_success : ℕ
msg_allocate_success = 0x0103

abbrev pub msg_allocate_error : ℕ
msg_allocate_error = 0x0113

abbrev pub msg_whatsapp_ping : ℕ
msg_whatsapp_ping = 0x0801

abbrev pub msg_whatsapp_pong : ℕ
msg_whatsapp_pong = 0x0802

-- `pad4`
abbrev pub pad4 : ℕ → ℕ
pad4 n = (4 - n % 4) % 4

-- `stunAttr`
unfoldable pub stun_attr : ℕ → Bytes → Bytes
stun_attr attr_type value =
    be16 attr_type ++ (be16 (length value) ++ (value ++ replicate (pad4 (length value)) 0))

-- `stunPseudoHeader`; `EncodeStunRequest` writes the same 20 bytes in front of the packet.
unfoldable pub stun_pseudo_header : ℕ → ℕ → Bytes → Bytes
stun_pseudo_header msg_type msg_len transaction_id =
    be16 msg_type ++ (be16 msg_len ++ (be32 stun_magic ++ transaction_id))

module _ (c : Crypto) (crc32 : Bytes → ℕ) (msg_type : ℕ) (transaction_id : Bytes) where
  -- The integrity part: 24 bytes are still to come when the header is signed.
  unfoldable pub sign : Option Bytes → Bytes → Bytes
  sign none body = body
  sign (some key) body =
      let header = stun_pseudo_header msg_type (length body + 24) transaction_id in
      body ++ stun_attr attr_message_integrity (c.hmac_sha1 key (header ++ body))

  -- The fingerprint part: eight bytes are still to come.
  unfoldable pub fingerprint : Bool → Bytes → Bytes
  fingerprint false body = body
  fingerprint true body =
      let header = stun_pseudo_header msg_type (length body + 8) transaction_id in
      body
      ++ stun_attr attr_fingerprint (be32 (bit_xor (crc32 (header ++ body)) stun_fingerprint_xor))

  -- `EncodeStunRequest`; a nil key is `none`.
  unfoldable pub encode_stun_request : Bytes → Option Bytes → Bool → Bytes
  encode_stun_request attrs integrity_key include_fingerprint =
      let body = fingerprint include_fingerprint (sign integrity_key attrs) in
      stun_pseudo_header msg_type (length body) transaction_id ++ body

-- `BuildWhatsappPing`
unfoldable pub build_whatsapp_ping : Bytes → Bytes
build_whatsapp_ping transaction_id =
    be16 msg_whatsapp_ping ++ (0 ∷ 0 ∷ (be32 stun_magic ++ transaction_id))

-- `createWasmRelayEndpointAttr`
unfoldable pub create_wasm_relay_endpoint_attr : Bytes → Bytes
create_wasm_relay_endpoint_attr endpoint_xor = be16 1 ++ endpoint_xor

-- `strings.SplitSeq(s, ".")`, with the part that is being read.
unfoldable pub split_dots : Bytes → Bytes → List Bytes
split_dots part [] = part ∷ []
split_dots part (b ∷ bs) =
    if b == b'.' then part ∷ split_dots [] bs else split_dots (part ++ (b ∷ [])) bs

-- `strconv.ParseUint(part, 10, 8)` without an error: decimal digits, at least one, of a value that
-- fits eight bits. The value of the digits in front of the ones left is passed along.
unfoldable pub digits_from : ℕ → Bytes → Option ℕ
digits_from n [] = if leb n 255 then some n else none
digits_from n (b ∷ bs) =
    let more = digits_from (n * 10 + (b - b'0')) bs in
    if leb b'0' b && leb b b'9' then more else none

unfoldable pub parse_octet : Bytes → Option ℕ
parse_octet [] = none
parse_octet (b ∷ bs) = digits_from 0 (b ∷ bs)

-- The loop of `EncodeXorRelayEndpoint`: a part that is no octet is passed over.
unfoldable pub octets_of : List Bytes → Bytes
octets_of [] = []
octets_of (part ∷ parts) = elim (parse_octet part) [
  | none ↦ octets_of parts
  | some n ↦ n ∷ octets_of parts
]

-- `buf[2+i] = octets[i] ^ stunXorAddr[i]`
unfoldable pub xor_address : Bytes → Bytes → Bytes
xor_address [] ys = []
xor_address (x ∷ xs) [] = []
xor_address (x ∷ xs) (y ∷ ys) = bit_xor x y ∷ xor_address xs ys

-- `EncodeXorRelayEndpoint`
unfoldable pub encode_xor_relay_endpoint : Bytes → ℕ → Option Bytes
encode_xor_relay_endpoint ipv4 port =
    let octets = octets_of (split_dots [] ipv4) in
    if not (length octets == 4)
    then none
    else some (be16 (bit_xor port stun_xor_port) ++ xor_address octets stun_xor_addr)
