-- ===== src/Media/AppData/Reactions.antt =====
-- Reactions from one side of a call to the other.
use meowcaller.Base.{
  ℕ, ◌+◌, ◌*◌, ◌%◌, ◌≤◌, ◌<◌, ◌≡◌, refl, ap, ◌∙◌, Bool, true, some, List, [], ◌∷◌, ◌++◌, map, arith,
  ltb, ◌==◌, length, All, length-append, All-append, Bytes, IsU8, IsU64, IsBytes,
}
use meowcaller.Srtp.Crypto.{Crypto}
use meowcaller.Srtp.Roc.Exact.{IsIndex}
use meowcaller.Session.Pipeline.{MediaPipeline}
use meowcaller.Session.Pipeline.Packets.{IsPayload}
use meowcaller.Media.AppData.{Protowire, encode_app_data_reaction}
use meowcaller.Media.AppData.RoundTrip.{decode-encode_app_data_reaction, length-tag_bytes}
use meowcaller.Media.AppData.Stream.{
  AppDataSender, CallReaction, SendResult, send_failed, send_copies, send_reaction,
  receive_app_data,
}
use meowcaller.Media.AppData.Copies.{SendingData, send_copies-Copies, send_copies-refused}
use meowcaller.Media.AppData.Delivery.{kept, any_kept, ReceivingData, receive-new}

-- What the other side's callback is given.
abbrev pub reaction_of : Bytes → Bytes × List Bool → CallReaction
reaction_of peer x = record { emoji = x.0; sender = peer; removed = length x.0 == 0 }

module _ (w : Protowire) where
  framed-IsBytes : (xs : Bytes) → IsBytes xs → IsBytes (w.tag_bytes 1 2 ++ w.prefixed_bytes xs)
  framed-IsBytes xs b =
      All-append IsU8 (w.tag_bytes 1 2) (w.prefixed_bytes xs) (w.tag_bytes-IsBytes 1 2)
        (w.prefixed_bytes-IsBytes xs b)

  encode-IsPayload :
      (id : ℕ) (emoji : Bytes) → IsBytes emoji → IsPayload (encode_app_data_reaction w id emoji)
  unfolding encode_app_data_reaction
  encode-IsPayload id emoji b =
      let second : Bytes = w.tag_bytes 2 2 ++ w.prefixed_bytes emoji in
      let reaction : Bytes = w.tag_bytes 1 0 ++ (w.varint_bytes id ++ second) in
      let second_ok =
        All-append IsU8 (w.tag_bytes 2 2) (w.prefixed_bytes emoji) (w.tag_bytes-IsBytes 2 2)
          (w.prefixed_bytes-IsBytes emoji b) in
      let reaction_ok =
        All-append IsU8 (w.tag_bytes 1 0) (w.varint_bytes id ++ second) (w.tag_bytes-IsBytes 1 0)
          (All-append IsU8 (w.varint_bytes id) second (w.varint_bytes-IsBytes id) second_ok) in
      let message : Bytes = w.tag_bytes 1 2 ++ w.prefixed_bytes reaction in
      (
        framed-IsBytes message (framed-IsBytes reaction reaction_ok),
        omega (
          arith,
          length-append (w.tag_bytes 1 2) (w.prefixed_bytes message),
          length-tag_bytes w 1 2 (omega arith) (omega arith) (omega arith),
        ),
      )

module _ (c : Crypto) (w : Protowire) (send_packet : ℕ → Bytes → Bool) where
  send_reaction_lem :
      (s : AppDataSender) (p : MediaPipeline) (emoji : Bytes)
      → s.pipe ≡ some p
      → s.has_send_packet ≡ true
      → w.utf8_valid emoji ≡ true
      → s.transaction_id + 1 < 18446744073709551616
      → send_reaction c w send_packet s emoji
        ≡ send_copies c w send_packet 0 10
            (encode_app_data_reaction w (s.transaction_id + 1) emoji)
            p
            (record s { transaction_id = s.transaction_id + 1 })
  unfolding send_reaction
  send_reaction_lem s p emoji held open_now valid b =
      let id : (s.transaction_id + 1) % 18446744073709551616 ≡ s.transaction_id + 1 = omega arith in
      simp (valid, open_now, held, id, send_reaction) refl

  -- If the channel takes the first n copies of a reaction, n below ten, and refuses the next,
  -- sendReaction on an open sender with a valid emoji ends with the send error after exactly n
  -- copies, and the transaction id has moved on by one all the same.
  pub send_reaction-refused :
      (s : AppDataSender) (p : MediaPipeline) (emoji : Bytes) (i n : ℕ)
      → ((k : ℕ) (packet : Bytes) → send_packet k packet ≡ ltb k n)
      → n < 10
      → s.pipe ≡ some p
      → s.has_send_packet ≡ true
      → SendingData c p s i
      → IsBytes emoji
      → w.utf8_valid emoji ≡ true
      → IsIndex (i + 10)
      → s.transaction_id + 1 < 18446744073709551616
      → let ((s', result), packets) = send_reaction c w send_packet s emoji in
        (result ≡ send_failed) × (length packets ≡ n) × (s'.transaction_id ≡ s.transaction_id + 1)
  send_reaction-refused s p emoji i n takes few held open_now v bytes valid b id =
      rw (send_reaction_lem s p emoji held open_now valid id) (
        send_copies-refused c w send_packet 0 n 10 p
          (record s { transaction_id = s.transaction_id + 1 }) i
          (encode_app_data_reaction w (s.transaction_id + 1) emoji)
          (λ k packet. takes k packet ∙ ap (ltb k) (omega arith)) few
          (record {
            keys_valid = v.keys_valid;
            tag_is = v.tag_is;
            seq_is = v.seq_is;
            roc_ready = v.roc_ready;
            ssrc_bound = v.ssrc_bound;
          })
          b (encode-IsPayload w (s.transaction_id + 1) emoji bytes))

module _ (c : Crypto) (w : Protowire) (peer : Bytes) (send_packet : ℕ → Bytes → Bool) where
  -- Reactions one after the other; of the copies of each one some are lost.
  unfoldable pub exchange :
      AppDataSender → MediaPipeline → ℕ → List (Bytes × List Bool) → List CallReaction
  exchange s q last [] = []
  exchange s q last ((emoji, flags) ∷ reactions) =
      let ((s', result), packets) = send_reaction c w send_packet s emoji in
      let ((q', last'), calls) = receive_app_data c w peer s.ssrc q last (kept flags packets) in
      calls ++ exchange s' q' last' reactions

  -- The sender is open, and both ends are at copy `i`.
  pub record Ready (s : AppDataSender) (q : MediaPipeline) (last i : ℕ) : Type 0 where
    pub pipe : MediaPipeline
    pub held : s.pipe ≡ some pipe
    pub is_open : s.has_send_packet ≡ true
    pub sending : SendingData c pipe s i
    pub receiving : ReceivingData c pipe.send_keys q i 10
    pub behind : last ≤ s.transaction_id

  -- A valid emoji of which at least one copy arrives.
  abbrev pub Arrives : Bytes × List Bool → Type 0
  Arrives x = IsBytes x.0 × (w.utf8_valid x.0 ≡ true) × (any_kept x.1 10 ≡ true)

  -- What an exchange gives from the sending of its first reaction on.
  abbrev after_sending :
      AppDataSender
      → MediaPipeline
      → ℕ
      → List Bool
      → List (Bytes × List Bool)
      → (AppDataSender × SendResult) × List Bytes
      → List CallReaction
  after_sending s q last flags reactions out =
      let ((q', last'), calls) = receive_app_data c w peer s.ssrc q last (kept flags out.1) in
      calls ++ exchange out.0.0 q' last' reactions

  -- Over a channel that takes every packet, each of a run of reactions with a valid emoji is
  -- given to the callback of the other side exactly once, in order, with the peer as its sender
  -- and removed for the empty emoji, if at least one of its ten copies arrives, whichever others
  -- are lost, with indices below 2^48 and transaction ids below 2^64.
  pub reactions_arrive :
      (s : AppDataSender) (q : MediaPipeline) (last i : ℕ) (reactions : List (Bytes × List Bool))
      → ((n : ℕ) (packet : Bytes) → send_packet n packet ≡ true)
      → Ready s q last i
      → All Arrives reactions
      → IsIndex (i + length reactions * 10)
      → IsU64 (s.transaction_id + length reactions)
      → exchange s q last reactions ≡ map (reaction_of peer) reactions
  unfolding exchange
  reactions_arrive s q last i [] takes v good b few = refl
  reactions_arrive s q last i ((emoji, flags) ∷ reactions) takes v ((bytes, valid, some_copy), good)
        b few =
      let id = s.transaction_id + 1 in
      let payload = encode_app_data_reaction w id emoji in
      let started : AppDataSender = record s { transaction_id = id } in
      let run =
        send_reaction_lem c w send_packet s v.pipe emoji v.held v.is_open valid (omega arith) in
      let sending : SendingData c v.pipe started i = record {
        keys_valid = v.sending.keys_valid;
        tag_is = v.sending.tag_is;
        seq_is = v.sending.seq_is;
        roc_ready = v.sending.roc_ready;
        ssrc_bound = v.sending.ssrc_bound;
      } in
      let (all, copies, ten, same_id, still_open, same_ssrc, (pipe, held, keys, next)) =
        send_copies-Copies c w send_packet 0 10 v.pipe started i payload takes v.held sending
          (omega arith) (encode-IsPayload w id emoji bytes) in
      let (calls, last_id, ready) =
        receive-new c w peer v.pipe.send_keys s.ssrc payload
          (record { transaction_id = id; emoji = emoji })
          (decode-encode_app_data_reaction w id emoji (omega arith) (omega arith) valid) q last i
          flags copies (omega (arith, v.behind)) (rw ten some_copy) (omega (arith, ten))
          (omega (arith, ten)) (rw ten v.receiving) in
      let ((s', result), packets) = send_copies c w send_packet 0 10 payload v.pipe started in
      let ((q', last'), got) = receive_app_data c w peer s.ssrc q last (kept flags packets) in
      let rest =
        reactions_arrive s' q' last' (i + 10) reactions takes
          (record {
            pipe = pipe;
            held = held;
            is_open = still_open ∙ v.is_open;
            sending = next;
            receiving = rw keys (rw ten at ready);
            behind = omega (arith, last_id, same_id);
          })
          good (omega arith) (omega (arith, same_id)) in
      ap (after_sending s q last flags reactions) run
      ∙ ap (λ cs. cs ++ exchange s' q' last' reactions) calls
      ∙ ap (◌∷◌ (reaction_of peer (emoji, flags))) rest
