-- ===== src/Media/AppData.antt =====
-- appdata.go: reactions on the call's data stream. An error is `none`. The library protowire and
-- utf8.Valid are parameters.
pub mod Stream
pub mod Decoders
pub mod RoundTrip
pub mod Copies
pub mod Delivery
pub mod Reactions
mod Tests
use meowcaller.Base.{
  if◌then◌else◌, ℕ, zero, suc, ◌≤◌, ◌<◌, ◌≡◌, Bool, ◌&&◌, Option, none, some, List, [], ◌∷◌, ◌++◌,
  ◌==◌, ◌>>=◌, Loop, returns, out_of_fuel, loop_result, length, drop, Bytes, IsU64, IsBytes,
}

-- What the code uses of protowire and unicode/utf8. A field that ends in `bytes` is what the Append
-- function of that name appends; a Consume function gives the count of the bytes that it read, and
-- `none` for a negative count. The laws are what their documentation says of Append and Consume.
pub record Protowire : Type 0 where
  pub tag_bytes : ℕ → ℕ → Bytes
  pub varint_bytes : ℕ → Bytes
  pub prefixed_bytes : Bytes → Bytes
  pub consume_tag : Bytes → Option ((ℕ × ℕ) × ℕ)
  pub consume_varint : Bytes → Option (ℕ × ℕ)
  pub consume_bytes : Bytes → Option (Bytes × ℕ)
  pub consume_field_value : ℕ → ℕ → Bytes → Option ℕ
  pub utf8_valid : Bytes → Bool
  pub consume-tag_bytes :
      (num typ : ℕ) (rest : Bytes)
      → 1 ≤ num
      → num ≤ 15
      → typ ≤ 5
      → consume_tag (tag_bytes num typ ++ rest) ≡ some ((num, typ), length (tag_bytes num typ))
  pub consume-varint_bytes :
      (v : ℕ) (rest : Bytes)
      → IsU64 v
      → consume_varint (varint_bytes v ++ rest) ≡ some (v, length (varint_bytes v))
  pub consume-prefixed_bytes :
      (xs rest : Bytes)
      → consume_bytes (prefixed_bytes xs ++ rest) ≡ some (xs, length (prefixed_bytes xs))
  pub tag_bytes-IsBytes : (num typ : ℕ) → IsBytes (tag_bytes num typ)
  pub varint_bytes-IsBytes : (v : ℕ) → IsBytes (varint_bytes v)
  pub prefixed_bytes-IsBytes : (xs : Bytes) → IsBytes xs → IsBytes (prefixed_bytes xs)
  -- A tag has a byte at least, and no more than there are.
  pub consume_tag-bounds :
      (xs : Bytes) (field : ℕ × ℕ) (n : ℕ)
      → consume_tag xs ≡ some (field, n)
      → (0 < n) × (n ≤ length xs)

pub record AppDataReaction : Type 0 where
  pub transaction_id : ℕ
  pub emoji : Bytes

module _ (w : Protowire) where
  -- `encodeAppDataReaction`
  unfoldable pub encode_app_data_reaction : ℕ → Bytes → Bytes
  encode_app_data_reaction transaction_id emoji =
      let reaction : Bytes =
        w.tag_bytes 1 0
        ++ (w.varint_bytes transaction_id ++ (w.tag_bytes 2 2 ++ w.prefixed_bytes emoji)) in
      let message : Bytes = w.tag_bytes 1 2 ++ w.prefixed_bytes reaction in
      w.tag_bytes 1 2 ++ w.prefixed_bytes message

  -- The switch of `decodeReactionInfo`: the reaction, and what is left.
  unfoldable pub info_field : ℕ × ℕ → Bytes → AppDataReaction → Option (AppDataReaction × Bytes)
  info_field (num, typ) rest r =
      if num == 1 && typ == 0
      then (w.consume_varint rest >>= λ found.
          some (record r { transaction_id = found.0 }, drop found.1 rest))
      else if num == 2 && typ == 2
      then (w.consume_bytes rest >>= λ found.
          if w.utf8_valid found.0
          then some (record r { emoji = found.0 }, drop found.1 rest)
          else none)
      else (w.consume_field_value num typ rest >>= λ n. some (r, drop n rest))

  -- The loop of `decodeReactionInfo`. Each round reads a tag, so the size is enough fuel.
  unfoldable pub reaction_info : ℕ → Bytes → AppDataReaction → Loop (Option AppDataReaction)
  reaction_info fuel [] r = returns (if r.transaction_id == 0 then none else some r)
  reaction_info zero (b ∷ bs) r = out_of_fuel
  reaction_info (suc fuel) (b ∷ bs) r = elim (w.consume_tag (b ∷ bs)) [
    | none ↦ returns none
    | some (field, n) ↦ elim (info_field field (drop n (b ∷ bs)) r) [
      | none ↦ returns none
      | some (next, rest) ↦ reaction_info fuel rest next
    ]
  ]

  -- `decodeReactionInfo`
  unfoldable pub decode_reaction_info : Bytes → Option AppDataReaction
  decode_reaction_info xs =
      loop_result (reaction_info (length xs) xs (record { transaction_id = 0; emoji = [] }))

  -- What a field of `decodeAppDataMessage` or `decodeAppDataReactions` holds: its bytes, if it is
  -- field 1 of that type, and what is left.
  unfoldable pub next_field : Bytes → Option (Option Bytes × Bytes)
  next_field xs = w.consume_tag xs >>= λ found.
      let ((num, typ), n) = found in
      let rest = drop n xs in
      if num == 1 && typ == 2
      then (w.consume_bytes rest >>= λ got. some (some got.0, drop got.1 rest))
      else (w.consume_field_value num typ rest >>= λ m. some (none, drop m rest))

  -- The loop of `decodeAppDataMessage`: the first reaction, if there is one.
  unfoldable pub message_loop : ℕ → Bytes → Loop (Option (Option AppDataReaction))
  message_loop fuel [] = returns (some none)
  message_loop zero (b ∷ bs) = out_of_fuel
  message_loop (suc fuel) (b ∷ bs) = elim (next_field (b ∷ bs)) [
    | none ↦ returns none
    | some (none, rest) ↦ message_loop fuel rest
    | some (some reaction, rest) ↦ returns (decode_reaction_info reaction >>= λ r. some (some r))
  ]

  -- `decodeAppDataMessage`
  unfoldable pub decode_app_data_message : Bytes → Option (Option AppDataReaction)
  decode_app_data_message xs = loop_result (message_loop (length xs) xs)

  abbrev add_reaction : List AppDataReaction → Option AppDataReaction → List AppDataReaction
  add_reaction reactions none = reactions
  add_reaction reactions (some r) = reactions ++ (r ∷ [])

  -- The loop of `decodeAppDataReactions`.
  unfoldable pub reactions_loop :
      ℕ → Bytes → List AppDataReaction → Loop (Option (List AppDataReaction))
  reactions_loop fuel [] reactions = returns (some reactions)
  reactions_loop zero (b ∷ bs) reactions = out_of_fuel
  reactions_loop (suc fuel) (b ∷ bs) reactions = elim (next_field (b ∷ bs)) [
    | none ↦ returns none
    | some (none, rest) ↦ reactions_loop fuel rest reactions
    | some (some message, rest) ↦ elim (decode_app_data_message message) [
      | none ↦ returns none
      | some found ↦ reactions_loop fuel rest (add_reaction reactions found)
    ]
  ]

  -- `decodeAppDataReactions`
  unfoldable pub decode_app_data_reactions : Bytes → Option (List AppDataReaction)
  decode_app_data_reactions xs = loop_result (reactions_loop (length xs) xs [])
