-- ===== src/Srtp/Sframe/Frames.antt =====
-- Frames that one side seals are opened by the other side.
use meowcaller.Base.{
  ℕ, ◌+◌, ◌-◌, ◌<◌, ◌≡◌, refl, ap, ◌∙◌, true, false, ◌||◌, Option, some, List, [], ◌∷◌, ◌++◌, map,
  arith, ltb, ◌==◌, length, take, All, length-append, length-take, take-append, drop-append,
  get_or-drop, take-length, Bytes, IsU64, u64, byte_at, slice,
}
use meowcaller.Srtp.Crypto.{Crypto}
use meowcaller.Srtp.Sframe.{
  Gcm, SframeSession, split_call_key, counter_to_iv, build_sframe_header,
  derive_e2e_sframe_key_for_participant, new_sframe_session, sframe_info_label, gcm_encrypt,
  gcm_decrypt, encrypt, decrypt,
}
use meowcaller.Srtp.Sframe.Varint.{parse-build_sframe_header}
use meowcaller.Util.Participant.{format_participant_id}

module _ (c : Crypto) (g : Gcm) where
  -- The other side's session: its key for opening is this side's for sealing.
  record IsPeer (a b : SframeSession) : Type 0 where
    pub shared : b.decrypt_key ≡ a.encrypt_key
    pub size : length a.encrypt_key ≡ 16
    pub counter_bound : IsU64 a.tx_counter

  decrypt-sealed :
      (b : SframeSession) (key plain : Bytes) (counter : ℕ)
      → b.decrypt_key ≡ key
      → length key ≡ 16
      → 0 < length plain
      → IsU64 counter
      → decrypt c g b (g.seal key (counter_to_iv counter) plain ++ build_sframe_header counter 0)
        ≡ some plain
  unfolding decrypt gcm_decrypt
  decrypt-sealed b key plain counter same size some_plain bound =
      let sealed = g.seal key (counter_to_iv counter) plain in
      let header = build_sframe_header counter 0 in
      let frame = sealed ++ header in
      let (parsed, lo, hi, last) = parse-build_sframe_header counter 0 bound (omega arith) in
      let sealed_size : length sealed ≡ length plain + 16 =
        g.length-seal key (counter_to_iv counter) plain in
      let frame_size : length frame ≡ length sealed + length header = length-append sealed header in
      let header_len : byte_at frame (length frame - 1) ≡ length header =
        ap (λ i. byte_at frame i) (omega (arith, frame_size, lo))
        ∙ get_or-drop (length sealed) (length header - 1) frame 0
        ∙ ap (λ xs. byte_at xs (length header - 1)) (drop-append (length sealed) sealed header refl)
        ∙ last in
      let start : length frame - length header ≡ length sealed = omega (arith, frame_size) in
      let key_is : take 16 key ≡ key = take-length 16 key (omega (arith, size)) in
      let accepted : c.accepts key ≡ true = c.accepts_16 key size in
      let long : ltb (length frame) 19 ≡ false = ground (arith, frame_size, sealed_size, lo) in
      let fits : (ltb (length header) 3 || ltb (length frame) (length header)) ≡ false =
        ground (arith, frame_size, lo) in
      let tagged : ltb (length sealed) 17 ≡ false = ground (arith, sealed_size, some_plain) in
      rw
        (
          long,
          header_len,
          fits,
          start,
          tagged,
          drop-append (length sealed) sealed header refl,
          parsed,
          take-append (length sealed) sealed header refl,
          same,
          key_is,
          accepted,
          g.open-seal key (counter_to_iv counter) plain,
        )
        refl

  unfoldable pub encrypt_all : SframeSession → List Bytes → List (Option Bytes)
  encrypt_all s [] = []
  encrypt_all s (x ∷ xs) = let (s', frame) = encrypt c g s x in frame ∷ encrypt_all s' xs

  abbrev pub IsFrame : Bytes → Type 0
  IsFrame plain = 0 < length plain

  encrypt_lem :
      (a : SframeSession) (plain : Bytes)
      → length a.encrypt_key ≡ 16
      → encrypt c g a plain ≡ (
        record a { tx_counter = u64 (a.tx_counter + 1) },
        some (
            g.seal a.encrypt_key (counter_to_iv a.tx_counter) plain
            ++ build_sframe_header a.tx_counter 0),
      )
  unfolding encrypt gcm_encrypt
  encrypt_lem a plain size =
      let key_is : take 16 a.encrypt_key ≡ a.encrypt_key =
        take-length 16 a.encrypt_key (omega (arith, size)) in
      rw (key_is, c.accepts_16 a.encrypt_key size) refl

  encrypt_all-decrypt :
      (a b : SframeSession) (xs : List Bytes)
      → IsPeer a b
      → All IsFrame xs
      → (frames : List Bytes) × (encrypt_all a xs ≡ map some frames)
        × (map (decrypt c g b) frames ≡ map some xs)
  unfolding encrypt_all
  encrypt_all-decrypt a b [] r v = ([], refl, refl)
  encrypt_all-decrypt a b (x ∷ xs) r (vx, v) =
      let frame =
        g.seal a.encrypt_key (counter_to_iv a.tx_counter) x ++ build_sframe_header a.tx_counter 0 in
      let (frames, sent, opened) =
        encrypt_all-decrypt (record a { tx_counter = u64 (a.tx_counter + 1) }) b xs
          (record { shared = r.shared; size = r.size; counter_bound = omega arith }) v in
      let one : decrypt c g b frame ≡ some x =
        decrypt-sealed b a.encrypt_key x a.tx_counter r.shared r.size vx r.counter_bound in
      (frame ∷ frames, rw (encrypt_lem a x r.size, sent) refl, rw (one, opened) refl)

  derive_lem :
      (call_key id : Bytes)
      → length call_key ≡ 32
      → (key : Bytes) × (derive_e2e_sframe_key_for_participant c call_key id ≡ some key)
        × (length (take 16 key) ≡ 16)
  unfolding derive_e2e_sframe_key_for_participant split_call_key
  derive_lem call_key id h =
      let (key, made, size) =
        c.length-hkdf_sha256 (slice 0 16 call_key) (slice 16 32 call_key) (sframe_info_label id) 32
          (omega arith) in
      let exact : (length call_key == 32) ≡ true = ground (arith, h) in
      (key, rw exact made, omega (arith, size, length-take 16 key))

  -- From one 32-byte call key both sides make an SFrame session for each other, and every
  -- non-empty frame that one side encrypts is decrypted by the other side to what went in, also
  -- when the counter wraps.
  pub sframe_delivery :
      (call_key self_jid peer_jid : Bytes) (xs : List Bytes)
      → length call_key ≡ 32
      → All IsFrame xs
      → (a b : SframeSession) × (frames : List Bytes) × (new_sframe_session c call_key self_jid
            peer_jid
          ≡ some a)
        × (new_sframe_session c call_key peer_jid self_jid ≡ some b)
        × (encrypt_all a xs ≡ map some frames)
        × (map (decrypt c g b) frames ≡ map some xs)
  unfolding new_sframe_session
  sframe_delivery call_key self_jid peer_jid xs h v =
      let (ks, es, ss) = derive_lem call_key (format_participant_id self_jid) h in
      let (kp, ep, sp) = derive_lem call_key (format_participant_id peer_jid) h in
      let a : SframeSession = record {
        self_participant_id = format_participant_id self_jid;
        peer_participant_id = format_participant_id peer_jid;
        encrypt_key = take 16 kp;
        decrypt_key = take 16 ks;
        tx_counter = 0;
      } in
      let b : SframeSession = record {
        self_participant_id = format_participant_id peer_jid;
        peer_participant_id = format_participant_id self_jid;
        encrypt_key = take 16 ks;
        decrypt_key = take 16 kp;
        tx_counter = 0;
      } in
      let (frames, sent, opened) =
        encrypt_all-decrypt a b xs
          (record { shared = refl; size = sp; counter_bound = omega arith }) v in
      (a, b, frames, rw (ep, es) refl, rw (es, ep) refl, sent, opened)
