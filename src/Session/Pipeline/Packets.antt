-- ===== src/Session/Pipeline/Packets.antt =====
-- One packet on the wire, and what the receiver makes of it.
use meowcaller.Base.{
  ℕ, ◌+◌, ◌-◌, ◌<◌, ◌≡◌, refl, sym, ap, ◌∙◌, ◌⊎◌, inl, inr, false, none, some, ◌++◌, arith, ltb,
  leb, length, take, drop, length-append, drop-append, Bytes, IsBytes,
}
use meowcaller.Srtp.Crypto.{Crypto}
use meowcaller.Srtp.Roc.{RecvRocTracker, guess_roc}
use meowcaller.Srtp.Roc.Exact.{IsIndex, seq_of, roc_of, highest, IsTracking, guess_roc-exact}
use meowcaller.Srtp.Warp.{
  append_warp_mi_tag, warp_mi_tag_len, length-append_warp_mi_tag, take-append_warp_mi_tag,
}
use meowcaller.Srtp.E2e.{E2eSrtpKeys, crypt_payload}
use meowcaller.Srtp.E2e.Crypt.{IsKeys, crypt-crypt}
use meowcaller.Rtp.Header.{RtpHeader, encode_rtp_header, byte_size}
use meowcaller.Rtp.Header.Length.{length-encode_rtp_header, byte_size-ge}
use meowcaller.Rtp.Header.RoundTrip.{IsHeader, parse-encode, rtp_header_byte_length-encode}
use meowcaller.Session.Pipeline.{MediaPipeline, open_payload, unprotect_audio}

-- A payload that can be sent: bytes, at least one of them.
abbrev pub IsPayload : Bytes → Type 0
IsPayload payload = IsBytes payload × (0 < length payload)

-- `packet` carries `payload` as the packet of index `i` under `keys`.
pub record IsPacket (c : Crypto) (keys : E2eSrtpKeys) (i : ℕ) (payload packet : Bytes)
    : Type 0 where
  pub header : RtpHeader
  pub body : Bytes
  pub header_valid : IsHeader header
  pub seq_is : header.sequence_number ≡ seq_of i
  pub payload_valid : IsPayload payload
  pub encrypted : crypt_payload c keys header.ssrc (seq_of i) (roc_of i) payload ≡ some body
  pub packet_is :
      packet
      ≡ append_warp_mi_tag c keys.auth_key
          (encode_rtp_header header ++ body)
          (roc_of i)
          warp_mi_tag_len

-- The receiver can tell the ROC of index `i`.
abbrev pub CanPlace : RecvRocTracker → ℕ → Type 0
CanPlace t i =
    ((t.initialized ≡ false) × (t.roc ≡ 0) × (i < 65536))
    ⊎ (IsTracking t × (i < highest t + 32768) × (highest t < i + 32768))

pub guess_roc-CanPlace :
    (t : RecvRocTracker) (i : ℕ)
    → IsIndex i
    → CanPlace t i
    → ((guess_roc t (seq_of i)).1 ≡ roc_of i) × IsTracking (guess_roc t (seq_of i)).0
guess_roc-CanPlace t i b (inl fresh) = unfold guess_roc in ground arith
guess_roc-CanPlace t i b (inr (tracking, lo, hi)) =
    let (same, next, _) = guess_roc-exact t i tracking b lo hi in (same, next)

module _ (c : Crypto) (keys : E2eSrtpKeys) (valid : IsKeys c keys) (i : ℕ) (payload packet : Bytes)
    (sent : IsPacket c keys i payload packet) where
  abbrev without_tag : Bytes
  without_tag = encode_rtp_header sent.header ++ sent.body

  body_lem :
      (crypt_payload c keys sent.header.ssrc (seq_of i) (roc_of i) sent.body ≡ some payload)
      × (length sent.body ≡ length payload)
  body_lem =
      let (out, there, back, same, _) =
        crypt-crypt c keys sent.header.ssrc (seq_of i) (roc_of i) payload valid
          sent.payload_valid.0 in
      let e : some out ≡ some sent.body = sym there ∙ sent.encrypted in
      let e' : out ≡ sent.body = cc e in (rw e' at back, rw e' at same)

  length-packet : length packet ≡ length without_tag + 4
  length-packet =
      ap length sent.packet_is
      ∙ length-append_warp_mi_tag c keys.auth_key without_tag (roc_of i) 4 (omega arith)

  take-packet : take (length packet - 4) packet ≡ without_tag
  take-packet =
      rw sent.packet_is
        (take-append_warp_mi_tag c keys.auth_key without_tag (roc_of i) 4 (omega arith))

  -- A packet of the other side comes out as its header, without the audio extension word, and the
  -- payload that went in.
  pub unprotect_lem :
      (rx : MediaPipeline)
      → rx.recv_keys ≡ keys
      → rx.tag_len ≡ 4
      → (guess_roc rx.recv_roc (seq_of i)).1 ≡ roc_of i
      → unprotect_audio c rx packet ≡ (
        record rx { recv_roc = (guess_roc rx.recv_roc (seq_of i)).0 },
        some (record (sent.header) { extension_word = none }, payload),
      )
  unfolding unprotect_audio open_payload
  unprotect_lem rx same_keys tag placed =
      let h = sent.header in
      let size = length-append (encode_rtp_header h) sent.body in
      let header_size = length-encode_rtp_header h in
      let least = byte_size-ge h in
      let (decrypted, same) = body_lem in
      let some_payload = sent.payload_valid.1 in
      let long : ltb (length packet) (12 + rx.tag_len) ≡ false =
        ground (arith, size, header_size, least, length-packet) in
      let tagless : take (length packet - rx.tag_len) packet ≡ without_tag = rw tag take-packet in
      let rest : leb (length without_tag) (byte_size h) ≡ false =
        ground (arith, size, header_size, least, same, some_payload) in
      let cut : drop (byte_size h) without_tag ≡ sent.body =
        drop-append (byte_size h) (encode_rtp_header h) sent.body (sym header_size) in
      rw
        (
          long,
          tagless,
          parse-encode h sent.body sent.header_valid,
          tagless,
          rtp_header_byte_length-encode h sent.body,
          tagless,
          rest,
          cut,
          sent.seq_is,
          placed,
          same_keys,
          decrypted,
        )
        refl
