-- ===== src/Media/AppData/RoundTrip.antt =====
-- What is encoded is decoded.
use meowcaller.Base.{
  ℕ, suc, ◌-◌, ◌≤◌, ◌<◌, ◌≡◌, refl, ap, ◌∙◌, true, Option, some, List, [], ◌∷◌, ◌++◌, append-nil,
  arith, ◌>>=◌, returns, loop_result, length, drop, length-append, drop-append, Bytes, IsU64,
}
use meowcaller.Media.AppData.{
  Protowire, AppDataReaction, encode_app_data_reaction, info_field, reaction_info,
  decode_reaction_info, next_field, message_loop, decode_app_data_message, reactions_loop,
  decode_app_data_reactions, add_reaction,
}

module _ (w : Protowire) where
  pub length-tag_bytes :
      (num typ : ℕ) → 1 ≤ num → num ≤ 15 → typ ≤ 5 → 0 < length (w.tag_bytes num typ)
  length-tag_bytes num typ lo hi t =
      (w.consume_tag-bounds (w.tag_bytes num typ ++ []) (num, typ) (length (w.tag_bytes num typ))
        (w.consume-tag_bytes num typ [] lo hi t)).0

  drop-front : (xs ys : Bytes) → drop (length xs) (xs ++ ys) ≡ ys
  drop-front xs ys = drop-append (length xs) xs ys refl

  reaction_info-step :
      (fuel : ℕ) (xs : Bytes) (r next : AppDataReaction) (field : ℕ × ℕ) (n : ℕ) (rest : Bytes)
      → 0 < length xs
      → w.consume_tag xs ≡ some (field, n)
      → info_field w field (drop n xs) r ≡ some (next, rest)
      → reaction_info w (suc fuel) xs r ≡ reaction_info w fuel rest next
  unfolding reaction_info
  reaction_info-step fuel [] r next field n rest p e f = absurd (omega arith)
  reaction_info-step fuel (b ∷ bs) r next field n rest p e f = rw (e, f, reaction_info) refl

  info_field-id :
      (id : ℕ) (rest : Bytes) (r : AppDataReaction)
      → IsU64 id
      → info_field w (1, 0) (w.varint_bytes id ++ rest) r
        ≡ some (record r { transaction_id = id }, rest)
  unfolding info_field
  info_field-id id rest r b =
      rw (w.consume-varint_bytes id rest b)
        (ap (λ m. some (record r { transaction_id = id }, m)) (drop-front (w.varint_bytes id) rest))

  info_field-emoji :
      (emoji rest : Bytes) (r : AppDataReaction)
      → w.utf8_valid emoji ≡ true
      → info_field w (2, 2) (w.prefixed_bytes emoji ++ rest) r
        ≡ some (record r { emoji = emoji }, rest)
  unfolding info_field
  info_field-emoji emoji rest r v =
      rw (w.consume-prefixed_bytes emoji rest, v)
        (ap (λ m. some (record r { emoji = emoji }, m)) (drop-front (w.prefixed_bytes emoji) rest))

  next_field-message :
      (xs : Bytes) → next_field w (w.tag_bytes 1 2 ++ w.prefixed_bytes xs) ≡ some (some xs, [])
  unfolding next_field
  next_field-message xs =
      let tag =
        w.consume-tag_bytes 1 2 (w.prefixed_bytes xs) (omega arith) (omega arith) (omega arith) in
      let got = rw (append-nil (w.prefixed_bytes xs)) at (w.consume-prefixed_bytes xs []) in
      let all : drop (length (w.prefixed_bytes xs)) (w.prefixed_bytes xs) ≡ [] =
        rw (append-nil (w.prefixed_bytes xs)) at (drop-front (w.prefixed_bytes xs) []) in
      rw (tag, drop-front (w.tag_bytes 1 2) (w.prefixed_bytes xs), got)
        (ap (λ m. some (some xs, m)) all)

  message_loop-step :
      (fuel : ℕ) (xs reaction rest : Bytes)
      → 0 < length xs
      → next_field w xs ≡ some (some reaction, rest)
      → message_loop w (suc fuel) xs
        ≡ returns (decode_reaction_info w reaction >>= λ r. some (some r))
  unfolding message_loop
  message_loop-step fuel [] reaction rest p e = absurd (omega arith)
  message_loop-step fuel (b ∷ bs) reaction rest p e = rw (e, message_loop) refl

  reactions_loop-step :
      (fuel : ℕ) (xs message rest : Bytes) (reactions : List AppDataReaction)
      (found : Option AppDataReaction)
      → 0 < length xs
      → next_field w xs ≡ some (some message, rest)
      → decode_app_data_message w message ≡ some found
      → reactions_loop w (suc fuel) xs reactions
        ≡ reactions_loop w fuel rest (add_reaction w reactions found)
  unfolding reactions_loop
  reactions_loop-step fuel [] message rest reactions found p e f = absurd (omega arith)
  reactions_loop-step fuel (b ∷ bs) message rest reactions found p e f =
      rw (e, f, reactions_loop) refl

  module _ (id : ℕ) (emoji : Bytes) (lo : 0 < id) (hi : IsU64 id)
      (valid : w.utf8_valid emoji ≡ true) where
    abbrev reaction_sent : AppDataReaction
    reaction_sent = record { transaction_id = id; emoji = emoji }

    abbrev second_field : Bytes
    second_field = w.tag_bytes 2 2 ++ w.prefixed_bytes emoji

    abbrev reaction_bytes : Bytes
    reaction_bytes = w.tag_bytes 1 0 ++ (w.varint_bytes id ++ second_field)

    abbrev empty : AppDataReaction
    empty = record { transaction_id = 0; emoji = [] }

    info_second :
        (fuel : ℕ)
        → reaction_info w (suc fuel) second_field (record { transaction_id = id; emoji = [] })
          ≡ returns (some reaction_sent)
    info_second fuel =
        let tag =
          w.consume-tag_bytes 2 2 (w.prefixed_bytes emoji) (omega arith) (omega arith)
            (omega arith) in
        let value =
          rw (append-nil (w.prefixed_bytes emoji)) at
            (info_field-emoji emoji [] (record { transaction_id = id; emoji = [] }) valid) in
        reaction_info-step fuel second_field (record { transaction_id = id; emoji = [] })
          reaction_sent (2, 2) (length (w.tag_bytes 2 2)) []
          (omega (
            arith,
            length-append (w.tag_bytes 2 2) (w.prefixed_bytes emoji),
            length-tag_bytes 2 2 (omega arith) (omega arith) (omega arith),
          ))
          tag (rw (drop-front (w.tag_bytes 2 2) (w.prefixed_bytes emoji)) value)
        ∙ (unfold reaction_info in ground arith)

    reaction_info-encode :
        (fuel : ℕ)
        → reaction_info w (suc (suc fuel)) reaction_bytes empty ≡ returns (some reaction_sent)
    reaction_info-encode fuel =
        let tag =
          w.consume-tag_bytes 1 0 (w.varint_bytes id ++ second_field) (omega arith) (omega arith)
            (omega arith) in
        reaction_info-step (suc fuel) reaction_bytes empty
          (record { transaction_id = id; emoji = [] }) (1, 0) (length (w.tag_bytes 1 0))
          second_field
          (omega (
            arith,
            length-append (w.tag_bytes 1 0) (w.varint_bytes id ++ second_field),
            length-tag_bytes 1 0 (omega arith) (omega arith) (omega arith),
          ))
          tag
          (rw (drop-front (w.tag_bytes 1 0) (w.varint_bytes id ++ second_field))
            (info_field-id id second_field empty hi))
        ∙ info_second fuel

    decode_reaction_info-encode : decode_reaction_info w reaction_bytes ≡ some reaction_sent
    unfolding decode_reaction_info
    decode_reaction_info-encode =
        let fuel : length reaction_bytes ≡ suc (suc (length reaction_bytes - 2)) = omega (
          arith,
          length-append (w.tag_bytes 1 0) (w.varint_bytes id ++ second_field),
          length-append (w.varint_bytes id) second_field,
          length-append (w.tag_bytes 2 2) (w.prefixed_bytes emoji),
          length-tag_bytes 1 0 (omega arith) (omega arith) (omega arith),
          length-tag_bytes 2 2 (omega arith) (omega arith) (omega arith),
        ) in
        ap (λ n. loop_result (reaction_info w n reaction_bytes empty)) fuel
        ∙ ap loop_result (reaction_info-encode (length reaction_bytes - 2))

    abbrev message_bytes : Bytes
    message_bytes = w.tag_bytes 1 2 ++ w.prefixed_bytes reaction_bytes

    framed_length : (xs : Bytes) → 0 < length (w.tag_bytes 1 2 ++ w.prefixed_bytes xs)
    framed_length xs = omega (
      arith,
      length-append (w.tag_bytes 1 2) (w.prefixed_bytes xs),
      length-tag_bytes 1 2 (omega arith) (omega arith) (omega arith),
    )

    decode_message-encode : decode_app_data_message w message_bytes ≡ some (some reaction_sent)
    unfolding decode_app_data_message
    decode_message-encode =
        let fuel : length message_bytes ≡ suc (length message_bytes - 1) =
          omega (arith, framed_length reaction_bytes) in
        ap (λ n. loop_result (message_loop w n message_bytes)) fuel
        ∙ ap loop_result (
            message_loop-step (length message_bytes - 1) message_bytes reaction_bytes []
              (framed_length reaction_bytes) (next_field-message reaction_bytes))
        ∙ ap (λ r. r >>= λ x. some (some x)) decode_reaction_info-encode

    pub decode-encode_app_data_reaction :
        decode_app_data_reactions w (encode_app_data_reaction w id emoji)
        ≡ some (record { transaction_id = id; emoji = emoji } ∷ [])
    unfolding decode_app_data_reactions encode_app_data_reaction
    decode-encode_app_data_reaction =
        let xs : Bytes = w.tag_bytes 1 2 ++ w.prefixed_bytes message_bytes in
        let fuel : length xs ≡ suc (length xs - 1) = omega (arith, framed_length message_bytes) in
        ap (λ n. loop_result (reactions_loop w n xs [])) fuel
        ∙ ap loop_result (
            reactions_loop-step (length xs - 1) xs message_bytes [] [] (some reaction_sent)
              (framed_length message_bytes) (next_field-message message_bytes)
              decode_message-encode)
        ∙ (unfold reactions_loop in refl)
