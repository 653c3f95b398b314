-- ===== src/Rtp/Header/Parser.antt =====
-- The parsers of rtp/rtp.go: `ParseWhatsappVideoExtension`, as a loop on fuel, and `ParseRtpHeader`.
use meowcaller.Base.{
  ℕ, zero, suc, ◌+◌, Bool, true, false, not, ◌||◌, Option, none, some, [], ◌∷◌, ltb, ◌==◌,
  if◌then◌else◌, ◌>>=◌, Loop, returns, out_of_fuel, loop_result, length, take, drop, Bytes, shr,
  low_bits, bit, byte_at, read_be16, read_be32,
}
use meowcaller.Rtp.Header.{
  VideoRtpExtension, RtpHeader, rtp_header_byte_length, rtp_extension_profile_and_data,
  whatsapp_rtp_extension_profile,
}

-- The variables of the loop in `ParseWhatsappVideoExtension`.
pub record Found : Type 0 where
  pub parsed : VideoRtpExtension
  pub has_frame_info : Bool
  pub has_short_offset : Bool
  pub has_transport_sequence : Bool

abbrev pub found_nothing : Found
found_nothing = record {
  parsed = record {
    media_frame_info = 0;
    frame_number = none;
    initial_bandwidth = 0;
    short_offset = 0;
    transport_sequence = 0;
  };
  has_frame_info = false;
  has_short_offset = false;
  has_transport_sequence = false;
}

abbrev store_frame_info : ℕ → Bytes → Found → Found
store_frame_info len value s = record s {
  parsed = record (s.parsed) {
    media_frame_info = byte_at value 0;
    frame_number = if len == 3 then some (read_be16 value 1) else s.parsed.frame_number;
  };
  has_frame_info = true;
}

-- The `switch id`; `none` is the `return nil, false` of a wrong length.
unfoldable pub store : ℕ → ℕ → Bytes → Found → Option Found
store id len value s =
    if id == 3
    then (if len == 1 || len == 3 then some (store_frame_info len value s) else none)
    else if id == 5
    then (if len == 2
        then some
            (record s { parsed = record (s.parsed) { initial_bandwidth = read_be16 value 0 } })
        else none)
    else if id == 6
    then (if len == 2
        then some (record s {
          parsed = record (s.parsed) { short_offset = read_be16 value 0 };
          has_short_offset = true;
        })
        else none)
    else if id == 9
    then (if len == 2
        then some (record s {
          parsed = record (s.parsed) { transport_sequence = read_be16 value 0 };
          has_transport_sequence = true;
        })
        else none)
    else some s

-- One round of the loop behind a header byte that is not 0: the bytes left, and what is found.
unfoldable pub element : ℕ → Bytes → Found → Option (Bytes × Found)
element header rest s =
    let id = shr header 4 in
    let len = low_bits header 4 + 1 in
    if id == 15 || ltb (length rest) len
    then none
    else (store id len (take len rest) s >>= λ s'. some (drop len rest, s'))

-- The loop over the extension's bytes from `offset` on, which are the list. Each round takes a
-- byte at least, so as many rounds as there are bytes are enough.
unfoldable pub scan : ℕ → Bytes → Found → Loop (Option Found)
scan fuel [] s = returns (some s)
scan zero (header ∷ rest) s = out_of_fuel
scan (suc fuel) (header ∷ rest) s = elim (header == 0) [
  | true ↦ scan fuel rest s
  | false ↦ elim (element header rest s) [
    | none ↦ returns none
    | some (rest', s') ↦ scan fuel rest' s'
  ]
]

-- `if !hasFrameInfo || !hasShortOffset || !hasTransportSequence`
abbrev pub complete : Found → Option VideoRtpExtension
complete s =
    if not s.has_frame_info || (not s.has_short_offset || not s.has_transport_sequence)
    then none
    else some s.parsed

-- `ParseWhatsappVideoExtension`
unfoldable pub parse_whatsapp_video_extension : Bytes → Option VideoRtpExtension
unfolding rtp_extension_profile_and_data
parse_whatsapp_video_extension xs = rtp_extension_profile_and_data xs >>= λ r.
    if not (r.0 == whatsapp_rtp_extension_profile)
    then none
    else loop_result (scan (length r.1) r.1 found_nothing) >>= complete

-- `ParseRtpHeader`
unfoldable pub parse_rtp_header : Bytes → Option RtpHeader
parse_rtp_header xs = rtp_header_byte_length xs >>= λ n. some (record {
  marker = bit (byte_at xs 1) 7 == 1;
  payload_type = low_bits (byte_at xs 1) 7;
  sequence_number = read_be16 xs 2;
  timestamp = read_be32 xs 4;
  ssrc = read_be32 xs 8;
  extension_word = none;
  video_extension = parse_whatsapp_video_extension xs;
})
