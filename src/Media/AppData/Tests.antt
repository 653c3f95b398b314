-- ===== src/Media/AppData/Tests.antt =====
-- Reactions on a sample encoding.
use meowcaller.Base.{
  ℕ, zero, suc, ◌+◌, ◌*◌, ◌/◌, ◌%◌, ◌≤◌, ◌<◌, ◌≡◌, refl, ap, ◌∙◌, inl, Bool, true, false, Option,
  none, some, List, [], ◌∷◌, ◌++◌, map, append_assoc, arith, ltb, ◌==◌, if◌then◌else◌, Returns,
  length, take, replicate, length-append, length-replicate, take-append, All-append, Bytes, IsU8,
  IsU64, IsBytes, be32, read_be32,
}
use meowcaller.Srtp.Sample.{sample_crypto}
use meowcaller.Srtp.E2e.{E2eSrtpKeys}
use meowcaller.Srtp.E2e.Crypt.{IsKeys}
use meowcaller.Rtp.Stream.{new_rtp_stream}
use meowcaller.Session.Pipeline.{MediaPipeline}
use meowcaller.Media.AppData.{
  Protowire, encode_app_data_reaction, decode_app_data_reactions, reactions_loop, message_loop,
  reaction_info,
}
use meowcaller.Media.AppData.Decoders.{decoders_return}
use meowcaller.Media.AppData.RoundTrip.{decode-encode_app_data_reaction}
use meowcaller.Media.AppData.Stream.{AppDataSender, send_failed, send_reaction}
use meowcaller.Media.AppData.Copies.{SendingData}
use meowcaller.Media.AppData.Delivery.{any_kept}
use meowcaller.Media.AppData.Reactions.{
  Ready, exchange, reaction_of, reactions_arrive, send_reaction-refused,
}

-- A length in unary, and then the bytes.
unfoldable prefixed : Bytes → Bytes
prefixed xs = replicate (length xs) 1 ++ (0 ∷ xs)

unfoldable unprefix : ℕ → Bytes → Option (Bytes × ℕ)
unprefix n [] = none
unprefix n (b ∷ bs) =
    let more = unprefix (suc n) bs in if b == 1 then more else some (take n bs, 2 * n + 1)

unprefix-ones :
    (m n : ℕ) (rest : Bytes)
    → unprefix n (replicate m 1 ++ (0 ∷ rest)) ≡ some (take (m + n) rest, 2 * (m + n) + 1)
unfolding unprefix
unprefix-ones zero n rest = ap (λ k. some (take k rest, 2 * k + 1)) (omega arith)
unprefix-ones (suc m) n rest =
    unprefix-ones m (suc n) rest ∙ ap (λ k. some (take k rest, 2 * k + 1)) (omega arith)

unprefix-prefixed :
    (xs rest : Bytes) → unprefix 0 (prefixed xs ++ rest) ≡ some (xs, length (prefixed xs))
unfolding prefixed
unprefix-prefixed xs rest =
    let ones : Bytes = replicate (length xs) 1 in
    let size : 2 * (length xs + 0) + 1 ≡ length (prefixed xs) =
      omega (arith, length-append ones (0 ∷ xs), length-replicate {A = ℕ} (length xs) 1) in
    let all : take (length xs + 0) (xs ++ rest) ≡ xs =
      take-append (length xs + 0) xs rest (omega arith) in
    ap (unprefix 0) (append_assoc ones (0 ∷ xs) rest)
    ∙ unprefix-ones (length xs) 0 (xs ++ rest)
    ∙ rw (size, all) refl

ones-IsBytes : (n : ℕ) → IsBytes (replicate n 1)
ones-IsBytes zero = tt
ones-IsBytes (suc n) = (omega arith, ones-IsBytes n)

prefixed-IsBytes : (xs : Bytes) → IsBytes xs → IsBytes (prefixed xs)
unfolding prefixed
prefixed-IsBytes xs b =
    All-append IsU8 (replicate (length xs) 1) (0 ∷ xs) (ones-IsBytes (length xs)) (omega arith, b)

unfoldable read_tag : Bytes → Option ((ℕ × ℕ) × ℕ)
read_tag [] = none
read_tag (b ∷ bs) = some ((b / 8, b % 8), 1)

unfoldable read_varint : Bytes → Option (ℕ × ℕ)
read_varint xs =
    if ltb (length xs) 8 then none else some (read_be32 xs 0 * 4294967296 + read_be32 xs 4, 8)

unfoldable varint : ℕ → Bytes
varint v = be32 (v / 4294967296) ++ be32 v

read_varint-varint :
    (v : ℕ) (rest : Bytes) → IsU64 v → read_varint (varint v ++ rest) ≡ some (v, length (varint v))
unfolding read_varint varint
read_varint-varint v rest b = ground arith

read_tag-bounds :
    (xs : Bytes) (field : ℕ × ℕ) (n : ℕ) → read_tag xs ≡ some (field, n) → (0 < n) × (n ≤ length xs)
unfolding read_tag
read_tag-bounds [] field n e = cc e
read_tag-bounds (b ∷ bs) field n e = let one : 1 ≡ n = cc e in (omega arith, omega arith)

varint-IsBytes : (v : ℕ) → IsBytes (varint v)
unfolding varint
varint-IsBytes v = ground arith

read_tag-tag :
    (num typ : ℕ) (rest : Bytes)
    → 1 ≤ num
    → num ≤ 15
    → typ ≤ 5
    → read_tag ((num * 8 + typ) % 256 ∷ rest) ≡ some ((num, typ), 1)
unfolding read_tag
read_tag-tag num typ rest lo hi t = ground arith

abbrev sample_wire : Protowire
sample_wire = record {
  tag_bytes = λ num typ. (num * 8 + typ) % 256 ∷ [];
  varint_bytes = varint;
  prefixed_bytes = prefixed;
  consume_tag = read_tag;
  consume_varint = read_varint;
  consume_bytes = unprefix 0;
  consume_field_value = λ num typ xs. none;
  utf8_valid = λ xs. true;
  consume-tag_bytes = read_tag-tag;
  consume-varint_bytes = read_varint-varint;
  consume-prefixed_bytes = unprefix-prefixed;
  tag_bytes-IsBytes = λ num typ. (omega arith, tt);
  varint_bytes-IsBytes = varint-IsBytes;
  prefixed_bytes-IsBytes = prefixed-IsBytes;
  consume_tag-bounds = read_tag-bounds;
}

abbrev sample_keys : E2eSrtpKeys
sample_keys = record {
  cipher_key = replicate 16 1;
  salt = replicate 14 2;
  auth_key = replicate 20 3;
}

sample_keys-IsKeys : IsKeys sample_crypto sample_keys
sample_keys-IsKeys = record { length-cipher_key = refl; length-salt = refl; length-auth_key = refl }

abbrev sample_pipeline : MediaPipeline
sample_pipeline = record {
  send_keys = sample_keys;
  recv_keys = sample_keys;
  tag_len = 4;
  stream = new_rtp_stream 6 960 false;
  send_roc = record { roc = 0; last_seq = 0; initialized = false };
  recv_roc = record { roc = 0; s_l = 0; initialized = false };
  packets_sent = 0;
  octets_sent = 0;
  rtp_timestamp = 0;
}

abbrev sample_sender : AppDataSender
sample_sender = record {
  pipe = some sample_pipeline;
  ssrc = 6;
  has_send_packet = true;
  sequence_number = 0;
  timestamp = 0;
  transaction_id = 0;
}

sample-SendingData : SendingData sample_crypto sample_pipeline sample_sender 1
sample-SendingData = record {
  keys_valid = sample_keys-IsKeys;
  tag_is = refl;
  seq_is = refl;
  roc_ready = inl (refl, refl, omega arith);
  ssrc_bound = omega arith;
}

sample-Ready :
    Ready sample_crypto sample_wire (b'p' ∷ []) (λ n packet. true) sample_sender sample_pipeline 0 1
sample-Ready = record {
  pipe = sample_pipeline;
  held = refl;
  is_open = refl;
  sending = sample-SendingData;
  receiving = record {
    keys_valid = sample_keys-IsKeys;
    same_keys = refl;
    tag_is = refl;
    near = inl (refl, refl, omega arith);
  };
  behind = omega arith;
}

-- Of the first reaction the third and the last copy arrive, of the second, a removal, the first.
abbrev sample_reactions : List (Bytes × List Bool)
sample_reactions =
    (b'h' ∷ [], false ∷ false ∷ true ∷ false ∷ false ∷ false ∷ false ∷ false ∷ false ∷ true ∷ [])
    ∷ ([], true ∷ [])
    ∷ []

reactions_arrive_example :
    exchange sample_crypto sample_wire
      (b'p' ∷ [])
      (λ n packet. true)
      sample_sender
      sample_pipeline
      0
      sample_reactions
    ≡ map (reaction_of (b'p' ∷ [])) sample_reactions
reactions_arrive_example =
    reactions_arrive sample_crypto sample_wire (b'p' ∷ []) (λ n packet. true) sample_sender
      sample_pipeline 0 1 sample_reactions (λ n packet. refl) sample-Ready
      (
        ((omega arith, tt), refl, unfold any_kept in refl),
        ((tt, refl, unfold any_kept in refl), tt),
      )
      (omega arith) (omega arith)

send_reaction-refused_example :
    let ((s', result), packets) =
      send_reaction sample_crypto sample_wire (λ k packet. ltb k 3) sample_sender (b'h' ∷ []) in
    (result ≡ send_failed) × (length packets ≡ 3) × (s'.transaction_id ≡ 1)
send_reaction-refused_example =
    send_reaction-refused sample_crypto sample_wire (λ k packet. ltb k 3) sample_sender
      sample_pipeline (b'h' ∷ []) 1 3 (λ k packet. refl) (omega arith) refl refl sample-SendingData
      (omega arith, tt) refl (omega arith) (omega arith)

decoders_return_example :
    Returns (reactions_loop sample_wire 3 (10 ∷ 1 ∷ 7 ∷ []) [])
    × Returns (message_loop sample_wire 3 (10 ∷ 1 ∷ 7 ∷ []))
    × Returns
        (reaction_info sample_wire 3 (10 ∷ 1 ∷ 7 ∷ []) (record { transaction_id = 0; emoji = [] }))
decoders_return_example =
    decoders_return sample_wire (10 ∷ 1 ∷ 7 ∷ []) (record { transaction_id = 0; emoji = [] }) []

decode-encode_app_data_reaction_example :
    decode_app_data_reactions sample_wire
      (encode_app_data_reaction sample_wire 7 (b'h' ∷ b'i' ∷ []))
    ≡ some (record { transaction_id = 7; emoji = b'h' ∷ b'i' ∷ [] } ∷ [])
decode-encode_app_data_reaction_example =
    decode-encode_app_data_reaction sample_wire 7 (b'h' ∷ b'i' ∷ []) (omega arith) (omega arith)
      refl
