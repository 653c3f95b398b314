-- ===== src/Media/AppData/Delivery.antt =====
-- Copies of reactions at the receiver.
use meowcaller.Base.{
  ℕ, zero, suc, ◌+◌, ◌≤◌, ◌<◌, ◌≡◌, refl, ap, ◌∙◌, ◌⊎◌, inl, inr, Bool, true, false, ◌||◌, Option,
  none, some, List, [], ◌∷◌, ◌++◌, arith, leb, ◌==◌, length, Bytes,
}
use meowcaller.Srtp.Crypto.{Crypto}
use meowcaller.Srtp.Roc.{RecvRocTracker, guess_roc}
use meowcaller.Srtp.Roc.Exact.{IsIndex, IsTracking, seq_of, roc_of, highest, guess_roc-exact}
use meowcaller.Srtp.E2e.{E2eSrtpKeys}
use meowcaller.Srtp.E2e.Crypt.{IsKeys}
use meowcaller.Session.Pipeline.{MediaPipeline}
use meowcaller.Session.Pipeline.Packets.{IsPacket, guess_roc-CanPlace, unprotect_lem}
use meowcaller.Session.Pipeline.EndToEnd.{highest-fresh}
use meowcaller.Media.Classify.{app_data_payload, classify_media_payload}
use meowcaller.Media.Classify.Wire.{packet_on_wire}
use meowcaller.Media.AppData.{Protowire, AppDataReaction, decode_app_data_reactions}
use meowcaller.Media.AppData.Stream.{
  CallReaction, first_new, take_new, call_reaction, receive, handle_app_data_reaction, events,
  app_data_opened, on_app_data, receive_app_data,
}
use meowcaller.Media.AppData.Copies.{Copies, no_copies, a_copy}

-- The packets that are not lost.
unfoldable pub kept : List Bool → List Bytes → List Bytes
kept [] packets = []
kept (flag ∷ flags) [] = []
kept (true ∷ flags) (packet ∷ packets) = packet ∷ kept flags packets
kept (false ∷ flags) (packet ∷ packets) = kept flags packets

-- One of the first `n` packets is not lost.
unfoldable pub any_kept : List Bool → ℕ → Bool
any_kept [] n = false
any_kept (flag ∷ flags) zero = false
any_kept (flag ∷ flags) (suc n) = flag || any_kept flags n

-- The receiver can tell the ROC of the next packets from index `i` on, even if that many are lost.
abbrev pub Near : RecvRocTracker → ℕ → ℕ → Type 0
Near t i left =
    ((t.initialized ≡ false) × (t.roc ≡ 0) × (i + left ≤ 65536))
    ⊎ (IsTracking t × (highest t < i) × (i + left ≤ highest t + 32768))

pub record ReceivingData (c : Crypto) (keys : E2eSrtpKeys) (p : MediaPipeline) (i left : ℕ)
    : Type 0 where
  pub keys_valid : IsKeys c keys
  pub same_keys : p.recv_keys ≡ keys
  pub tag_is : p.tag_len ≡ 4
  pub near : Near p.recv_roc i left

Near-later :
    (t : RecvRocTracker) (i left j less : ℕ)
    → Near t i left
    → i ≤ j
    → j + less ≤ i + left
    → Near t j less
Near-later t i left j less (inl (z, r, b)) lo hi = inl (z, r, omega arith)
Near-later t i left j less (inr (tracking, below, b)) lo hi =
    inr (tracking, omega arith, omega arith)

guess_roc-Near :
    (t : RecvRocTracker) (i left : ℕ)
    → IsIndex i
    → Near t i (suc left)
    → ((guess_roc t (seq_of i)).1 ≡ roc_of i) × Near (guess_roc t (seq_of i)).0 (suc i) 30000
guess_roc-Near t i left b (inl (z, r, small)) =
    let (same, next) = guess_roc-CanPlace t i b (inl (z, r, omega arith)) in
    let top = highest-fresh t i z r (omega arith) in
    (same, inr (next, omega (arith, top), omega (arith, top)))
guess_roc-Near t i left b (inr (tracking, below, near)) =
    let (same, next, top) = guess_roc-exact t i tracking b (omega arith) (omega arith) in
    (same, inr (next, omega (arith, top), omega (arith, top)))

module _ (c : Crypto) (w : Protowire) (peer : Bytes) (keys : E2eSrtpKeys) (want : ℕ)
    (payload : Bytes) where
  -- A copy that is not lost reaches the handler.
  on_app_data-copy :
      (q : MediaPipeline) (last i left : ℕ) (packet : Bytes)
      (copy : IsPacket c keys i payload packet)
      → copy.header.payload_type ≡ 119
      → copy.header.ssrc ≡ want
      → IsIndex i
      → ReceivingData c keys q i (suc left)
      → on_app_data c w peer want q last packet
        ≡ app_data_opened c w peer last (
          record q { recv_roc = (guess_roc q.recv_roc (seq_of i)).0 },
          some (record (copy.header) { extension_word = none }, payload),
        )
  unfolding on_app_data
  on_app_data-copy q last i left packet copy data_type ssrc b v =
      let (rtp, parsed) = packet_on_wire c keys i payload packet copy (omega arith) in
      let kind : classify_media_payload (record (copy.header) { extension_word = none })
          ≡ app_data_payload =
        unfold classify_media_payload in rw data_type refl in
      let own : (copy.header.ssrc == want) ≡ true = ground (arith, ssrc) in
      let opened =
        unprotect_lem c keys v.keys_valid i payload packet copy q v.same_keys v.tag_is
          (guess_roc-Near q.recv_roc i left b v.near).0 in
      rw (rtp, parsed, kind, own, on_app_data) (ap (app_data_opened c w peer last) opened)

  copy-ReceivingData :
      (q : MediaPipeline) (i left : ℕ)
      → IsIndex i
      → ReceivingData c keys q i (suc left)
      → ReceivingData c keys
          (record q { recv_roc = (guess_roc q.recv_roc (seq_of i)).0 })
          (suc i)
          30000
  copy-ReceivingData q i left b v = record {
    keys_valid = v.keys_valid;
    same_keys = v.same_keys;
    tag_is = v.tag_is;
    near = (guess_roc-Near q.recv_roc i left b v.near).1;
  }

  later-ReceivingData :
      (q : MediaPipeline) (i left j less : ℕ)
      → ReceivingData c keys q i left
      → i ≤ j
      → j + less ≤ i + left
      → ReceivingData c keys q j less
  later-ReceivingData q i left j less v lo hi = record {
    keys_valid = v.keys_valid;
    same_keys = v.same_keys;
    tag_is = v.tag_is;
    near = Near-later q.recv_roc i left j less v.near lo hi;
  }

  module _ (r : AppDataReaction)
      (decoded : decode_app_data_reactions w payload ≡ some (r ∷ [])) where
    abbrev delivered : CallReaction
    delivered = record { emoji = r.emoji; sender = peer; removed = length r.emoji == 0 }

    abbrev outcome : ℕ × Option (Option AppDataReaction) → ℕ × Option (Option CallReaction)
    outcome res = (res.0, call_reaction peer res.1)

    handle-old :
        (last : ℕ)
        → r.transaction_id ≤ last
        → handle_app_data_reaction w peer last payload ≡ (last, some none)
    unfolding handle_app_data_reaction receive take_new first_new call_reaction
    handle-old last old =
        let seen : leb r.transaction_id last ≡ true = ground (arith, old) in
        ap (λ ds. outcome (take_new last ds)) decoded ∙ rw seen refl

    handle-new :
        (last : ℕ)
        → last < r.transaction_id
        → handle_app_data_reaction w peer last payload ≡ (r.transaction_id, some (some delivered))
    unfolding handle_app_data_reaction receive take_new first_new call_reaction
    handle-new last new =
        let unseen : leb r.transaction_id last ≡ false = ground (arith, new) in
        ap (λ ds. outcome (take_new last ds)) decoded ∙ rw unseen refl

    abbrev placed : MediaPipeline → ℕ → MediaPipeline
    placed q i = record q { recv_roc = (guess_roc q.recv_roc (seq_of i)).0 }

    on_app_data_lem :
        (q : MediaPipeline) (last i left next : ℕ) (handled : Option (Option CallReaction))
        (packet : Bytes) (copy : IsPacket c keys i payload packet)
        → copy.header.payload_type ≡ 119
        → copy.header.ssrc ≡ want
        → IsIndex i
        → ReceivingData c keys q i (suc left)
        → handle_app_data_reaction w peer last payload ≡ (next, handled)
        → on_app_data c w peer want q last packet ≡ ((placed q i, next), events c w handled)
    unfolding app_data_opened
    on_app_data_lem q last i left next handled packet copy t s b v e =
        on_app_data-copy q last i left packet copy t s b v
        ∙ ap (λ res. ((placed q i, res.0), events c w res.1)) e

    receive_app_data-step :
        (q q' : MediaPipeline) (last last' : ℕ) (calls : List CallReaction) (packet : Bytes)
        (packets : List Bytes)
        → on_app_data c w peer want q last packet ≡ ((q', last'), calls)
        → receive_app_data c w peer want q last (packet ∷ packets) ≡ (
          (receive_app_data c w peer want q' last' packets).0,
          calls ++ (receive_app_data c w peer want q' last' packets).1,
        )
    unfolding receive_app_data
    receive_app_data-step q q' last last' calls packet packets e =
        ap
          (λ res. (
            (receive_app_data c w peer want res.0.0 res.0.1 packets).0,
            res.1 ++ (receive_app_data c w peer want res.0.0 res.0.1 packets).1,
          ))
          e

    -- Copies of a reaction that was delivered give nothing.
    receive-old :
        (q : MediaPipeline) (last i left : ℕ) (flags : List Bool) {packets : List Bytes}
        → Copies c keys want payload i packets
        → r.transaction_id ≤ last
        → IsIndex (i + length packets)
        → length packets + left ≤ 30000
        → ReceivingData c keys q i (length packets + left)
        → let ((q', last'), calls) = receive_app_data c w peer want q last (kept flags packets) in
          (calls ≡ []) × (last' ≡ last) × ReceivingData c keys q' (i + length packets) left
    unfolding kept
    receive-old q last i left [] _ old b room v =
        unfold receive_app_data in
        (refl, refl, later-ReceivingData q i _ _ left v (omega arith) (omega arith))
    receive-old q last i left (flag ∷ flags) no_copies old b room v =
        unfold receive_app_data in
        (refl, refl, later-ReceivingData q i _ _ left v (omega arith) (omega arith))
    receive-old q last i left (false ∷ flags) (a_copy packet {packets = packets} copy t s rest) old
          b room v =
        let next =
          later-ReceivingData q i _ (suc i) (length packets + left) v (omega arith) (omega arith) in
        let at : i + suc (length packets) ≡ suc i + length packets = omega arith in
        rw at (receive-old q last (suc i) left flags rest old (omega arith) (omega arith) next)
    receive-old q last i left (true ∷ flags) (a_copy packet {packets = packets} copy t s rest) old b
          room v =
        let here : IsIndex i = omega arith in
        let v' =
          later-ReceivingData q i _ i (suc (length packets + left)) v (omega arith) (omega arith) in
        let step =
          on_app_data_lem q last i (length packets + left) last (some none) packet copy t s here v'
            (handle-old last old) in
        let next =
          later-ReceivingData (placed q i) (suc i) 30000 (suc i) (length packets + left)
            (copy-ReceivingData q i (length packets + left) here v') (omega arith) (omega arith) in
        let at : i + suc (length packets) ≡ suc i + length packets = omega arith in
        rw (receive_app_data-step q (placed q i) last last [] packet (kept flags packets) step, at)
          (receive-old (placed q i) last (suc i) left flags rest old (omega arith) (omega arith)
            next)

    -- The first copy that is not lost delivers the reaction.
    pub receive-new :
        (q : MediaPipeline) (last i : ℕ) (flags : List Bool) {packets : List Bytes}
        → Copies c keys want payload i packets
        → last < r.transaction_id
        → any_kept flags (length packets) ≡ true
        → IsIndex (i + length packets)
        → length packets ≤ 10
        → ReceivingData c keys q i (length packets)
        → let ((q', last'), calls) = receive_app_data c w peer want q last (kept flags packets) in
          (calls ≡ delivered ∷ [])
          × (last' ≡ r.transaction_id)
          × ReceivingData c keys q' (i + length packets) 10
    unfolding kept any_kept
    receive-new q last i [] _ new any b few v = absurd (cc any)
    receive-new q last i (flag ∷ flags) no_copies new any b few v = absurd (cc any)
    receive-new q last i (false ∷ flags) (a_copy packet {packets = packets} copy t s rest) new any b
          few v =
        let next =
          later-ReceivingData q i _ (suc i) (length packets) v (omega arith) (omega arith) in
        let at : i + suc (length packets) ≡ suc i + length packets = omega arith in
        rw at (receive-new q last (suc i) flags rest new any (omega arith) (omega arith) next)
    receive-new q last i (true ∷ flags) (a_copy packet {packets = packets} copy t s rest) new any b
          few v =
        let here : IsIndex i = omega arith in
        let step =
          on_app_data_lem q last i (length packets) r.transaction_id (some (some delivered)) packet
            copy t s here v (handle-new last new) in
        let next =
          later-ReceivingData (placed q i) (suc i) 30000 (suc i) (length packets + 10)
            (copy-ReceivingData q i (length packets) here v) (omega arith) (omega arith) in
        let at : i + suc (length packets) ≡ suc i + length packets = omega arith in
        let (quiet, same, ready) =
          receive-old (placed q i) r.transaction_id (suc i) 10 flags rest (omega arith)
            (omega arith) (omega arith) next in
        rw
          (
            receive_app_data-step q (placed q i) last r.transaction_id (delivered ∷ []) packet
                (kept flags packets) step,
            at,
          )
          (ap (◌∷◌ delivered) quiet, same, ready)
