-- ===== src/Media/AppData/Decoders.antt =====
-- The decoders come to an end on any bytes.
use meowcaller.Base.{
  ℕ, zero, suc, ◌≤◌, ◌<◌, ◌≡◌, refl, ap, inl, inr, ◌&&◌, Option, none, some, List, [], ◌∷◌, arith,
  ◌==◌, Bool-cases, Option-cases, >>=-eq-some, Returns, length, drop, length-drop, Bytes,
}
use meowcaller.Media.AppData.{
  Protowire, AppDataReaction, info_field, reaction_info, next_field, message_loop,
  decode_app_data_message, reactions_loop, add_reaction,
}

module _ (w : Protowire) where
  -- A field behind a tag: at least the tag is read.
  next_field-shrinks :
      (xs : Bytes) (found : Option Bytes) (rest : Bytes)
      → next_field w xs ≡ some (found, rest)
      → length rest < length xs
  unfolding next_field
  next_field-shrinks xs found rest e =
      let (((num, typ), n), tag, more) = >>=-eq-some (w.consume_tag xs) _ e in
      let (some_byte, fits) = w.consume_tag-bounds xs (num, typ) n tag in
      let size = length-drop n xs in
      elim (Bool-cases (num == 1 && typ == 2)) [
        | inl one ↦
            let more' = rw one at more in
            let (got, bytes, out) = >>=-eq-some (w.consume_bytes (drop n xs)) _ more' in
            let same : drop got.1 (drop n xs) ≡ rest = cc out in
            omega (arith, size, length-drop got.1 (drop n xs), ap length same)
        | inr other ↦
            let more' = rw other at more in
            let (m, value, out) = >>=-eq-some (w.consume_field_value num typ (drop n xs)) _ more' in
            let same : drop m (drop n xs) ≡ rest = cc out in
            omega (arith, size, length-drop m (drop n xs), ap length same)
      ]

  message_loop-Returns :
      (fuel : ℕ) (xs : Bytes) → length xs ≤ fuel → Returns (message_loop w fuel xs)
  unfolding message_loop
  message_loop-Returns fuel [] h = (some none, refl)
  message_loop-Returns zero (b ∷ bs) h = absurd (omega arith)
  message_loop-Returns (suc fuel) (b ∷ bs) h = elim (Option-cases (next_field w (b ∷ bs))) [
    | inl e ↦ rw (e, message_loop) (none, refl)
    | inr ((none, rest), e) ↦
        rw (e, message_loop)
          (message_loop-Returns fuel rest (omega (arith, next_field-shrinks (b ∷ bs) none rest e)))
    | inr ((some reaction, rest), e) ↦ rw (e, message_loop) (_, refl)
  ]

  reactions_loop-Returns :
      (fuel : ℕ) (xs : Bytes) (reactions : List AppDataReaction)
      → length xs ≤ fuel
      → Returns (reactions_loop w fuel xs reactions)
  unfolding reactions_loop
  reactions_loop-Returns fuel [] reactions h = (some reactions, refl)
  reactions_loop-Returns zero (b ∷ bs) reactions h = absurd (omega arith)
  reactions_loop-Returns (suc fuel) (b ∷ bs) reactions h =
      elim (Option-cases (next_field w (b ∷ bs))) [
        | inl e ↦ rw (e, reactions_loop) (none, refl)
        | inr ((none, rest), e) ↦
            rw (e, reactions_loop)
              (reactions_loop-Returns fuel rest reactions
                (omega (arith, next_field-shrinks (b ∷ bs) none rest e)))
        | inr ((some message, rest), e) ↦
            rw (e, reactions_loop)
              (elim (Option-cases (decode_app_data_message w message)) [
                | inl bad ↦ rw bad (none, refl)
                | inr (found, good) ↦ rw good (
                    reactions_loop-Returns fuel rest (add_reaction w reactions found)
                      (omega (arith, next_field-shrinks (b ∷ bs) (some message) rest e)))
              ])
      ]

  info_field-shrinks :
      (num typ : ℕ) (xs : Bytes) (r next : AppDataReaction) (rest : Bytes)
      → info_field w (num, typ) xs r ≡ some (next, rest)
      → length rest ≤ length xs
  unfolding info_field
  info_field-shrinks num typ xs r next rest e = elim (Bool-cases (num == 1 && typ == 0)) [
    | inl one ↦
        let e' = rw one at e in
        let (found, value, out) = >>=-eq-some (w.consume_varint xs) _ e' in
        let same : drop found.1 xs ≡ rest = cc out in
        omega (arith, length-drop found.1 xs, ap length same)
    | inr other ↦
        let e' = rw other at e in
        elim (Bool-cases (num == 2 && typ == 2)) [
          | inl two ↦
              let e'' = rw two at e' in
              let (found, value, out) = >>=-eq-some (w.consume_bytes xs) _ e'' in
              elim (Bool-cases (w.utf8_valid found.0)) [
                | inl valid ↦
                    let out' = rw valid at out in
                    let same : drop found.1 xs ≡ rest = cc out' in
                    omega (arith, length-drop found.1 xs, ap length same)
                | inr bad ↦ let out' = rw bad at out in cc out'
              ]
          | inr neither ↦
              let e'' = rw neither at e' in
              let (n, value, out) = >>=-eq-some (w.consume_field_value num typ xs) _ e'' in
              let same : drop n xs ≡ rest = cc out in
              omega (arith, length-drop n xs, ap length same)
        ]
  ]

  reaction_info-Returns :
      (fuel : ℕ) (xs : Bytes) (r : AppDataReaction)
      → length xs ≤ fuel
      → Returns (reaction_info w fuel xs r)
  unfolding reaction_info
  reaction_info-Returns fuel [] r h = (_, refl)
  reaction_info-Returns zero (b ∷ bs) r h = absurd (omega arith)
  reaction_info-Returns (suc fuel) (b ∷ bs) r h = elim (Option-cases (w.consume_tag (b ∷ bs))) [
    | inl e ↦ rw (e, reaction_info) (none, refl)
    | inr (((num, typ), n), e) ↦
        rw (e, reaction_info)
          (let (some_byte, fits) = w.consume_tag-bounds (b ∷ bs) (num, typ) n e in
            elim (Option-cases (info_field w (num, typ) (drop n (b ∷ bs)) r)) [
              | inl bad ↦ rw bad (none, refl)
              | inr ((next, rest), good) ↦
                  let less = info_field-shrinks num typ (drop n (b ∷ bs)) r next rest good in
                  rw good (
                    reaction_info-Returns fuel rest next
                      (omega (arith, length-drop n (b ∷ bs), less)))
            ])
  ]

  -- On any bytes the three loops that decode application data come to an end with the size of
  -- their data as fuel, if a tag that protowire consumes has a byte at least.
  pub decoders_return :
      (xs : Bytes) (r : AppDataReaction) (reactions : List AppDataReaction)
      → Returns (reactions_loop w (length xs) xs reactions)
        × Returns (message_loop w (length xs) xs)
        × Returns (reaction_info w (length xs) xs r)
  decoders_return xs r reactions = (
    reactions_loop-Returns (length xs) xs reactions (omega arith),
    message_loop-Returns (length xs) xs (omega arith),
    reaction_info-Returns (length xs) xs r (omega arith),
  )
