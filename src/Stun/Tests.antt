-- ===== src/Stun/Tests.antt =====
-- Requests and answers on sample keys.
use meowcaller.Base.{
  ℕ, ◌%◌, ◌≡◌, refl, true, false, some, List, [], ◌∷◌, ◌++◌, arith, length, Bytes, replicate,
}
use meowcaller.Srtp.Sample.{sample_crypto}
use meowcaller.Stun.{
  encode_stun_request, build_whatsapp_ping, encode_xor_relay_endpoint, octets_of, split_dots,
  parse_octet, digits_from, xor_address, msg_allocate_request,
}
use meowcaller.Stun.Parse.{
  StunAttribute, stun_message_type, stun_transaction_id, parse_stun_attributes, is_whatsapp_pong,
  is_stun_packet, error_code_from, parse_stun_error_code,
}
use meowcaller.Stun.RoundTrip.{parse-encode_stun_request, encode_attributes, request_attributes}

abbrev sample_crc : Bytes → ℕ
sample_crc bs = length bs % 255

abbrev sample_transaction : Bytes
sample_transaction = replicate 12 5

abbrev sample_attributes : List StunAttribute
sample_attributes =
    record { attr_type = 0x4000; value = 1 ∷ 2 ∷ 3 ∷ [] }
    ∷ record { attr_type = 0x0016; value = [] }
    ∷ []

parse-encode_stun_request_example :
    let xs =
      encode_stun_request sample_crypto sample_crc msg_allocate_request sample_transaction
        (encode_attributes sample_attributes)
        (some (9 ∷ []))
        true in
    (stun_message_type xs ≡ some msg_allocate_request)
    × (stun_transaction_id xs ≡ some sample_transaction)
    × (parse_stun_attributes xs
        ≡ request_attributes sample_crypto sample_crc msg_allocate_request sample_transaction
            sample_attributes
            (some (9 ∷ []))
            true)
parse-encode_stun_request_example =
    parse-encode_stun_request sample_crypto sample_crc msg_allocate_request sample_transaction
      sample_attributes (some (9 ∷ [])) true (omega arith) refl
      ((omega arith, omega arith), ((omega arith, omega arith), tt))

-- A part that is no octet does not fail the address `1.2.x.3.4`.
endpoint_with_extra_part :
    encode_xor_relay_endpoint
      (b'1' ∷ b'.' ∷ b'2' ∷ b'.' ∷ b'x' ∷ b'.' ∷ b'3' ∷ b'.' ∷ b'4' ∷ [])
      3478
    ≡ some (0x2c ∷ 0x84 ∷ 0x20 ∷ 0x10 ∷ 0xa7 ∷ 0x46 ∷ [])
unfolding encode_xor_relay_endpoint octets_of split_dots parse_octet digits_from xor_address
endpoint_with_extra_part = refl

error_code_486 :
    parse_stun_error_code
      (1 ∷ 0x13 ∷ 0 ∷ 12 ∷ (replicate 16 0 ++ (0 ∷ 9 ∷ 0 ∷ 4 ∷ 0 ∷ 0 ∷ 4 ∷ 86 ∷ 0 ∷ [])))
    ≡ some 486
unfolding parse_stun_error_code stun_message_type error_code_from
error_code_486 = refl

ping_is_no_pong : is_whatsapp_pong (build_whatsapp_ping sample_transaction) [] ≡ false
unfolding is_whatsapp_pong build_whatsapp_ping is_stun_packet stun_message_type
ping_is_no_pong = refl
