-- ===== src/Srtp/E2e/Srtcp.antt =====
-- SRTCP: what `ProtectSrtcp` makes, `UnprotectSrtcp` takes apart.
use meowcaller.Base.{
  ℕ, zero, suc, ◌+◌, ◌-◌, ◌%◌, ◌≤◌, ◌<◌, ◌≡◌, refl, ◌∙◌, false, some, [], ◌∷◌, ◌++◌, append_assoc,
  arith, ltb, if◌then◌else◌, ◌>>=◌, length, take, drop, length-append, take-append-drop,
  length-take, length-drop, take-append, drop-append, get_or-drop, All-drop, bytes_equal_self,
  Bytes, IsU8, IsU32, IsBytes, u16, shr, slice, be32, read_be32,
}
use meowcaller.Srtp.Crypto.{Crypto}
use meowcaller.Srtp.E2e.{
  E2eSrtpKeys, crypt_payload, protect_srtcp, unprotect_srtcp, with_encrypted_flag,
}
use meowcaller.Srtp.E2e.Crypt.{IsKeys, crypt-crypt}

-- Reading the index word back where it was written.
read_be32-append :
    (front back : Bytes) (n w : ℕ)
    → n ≡ length front
    → IsU32 w
    → read_be32 (front ++ (be32 w ++ back)) n ≡ w
read_be32-append [] back zero w h b = omega arith
read_be32-append [] back (suc n) w h b = absurd (omega arith)
read_be32-append (x ∷ front) back zero w h b = absurd (omega arith)
read_be32-append (x ∷ front) back (suc n) w h b =
    let xs = front ++ (be32 w ++ back) in
    rw
      (
        get_or-drop (suc n) 1 (x ∷ xs) 0,
        get_or-drop (suc n) 2 (x ∷ xs) 0,
        get_or-drop (suc n) 3 (x ∷ xs) 0,
        ← get_or-drop n 1 xs 0,
        ← get_or-drop n 2 xs 0,
        ← get_or-drop n 3 xs 0,
      )
      (read_be32-append front back n w (omega arith) b)

module _ (c : Crypto) (keys : E2eSrtpKeys) (valid : IsKeys c keys) where
  -- The parts of a packet: eight bytes of header, the encrypted body, the index word, the tag.
  module _ (header body tag : Bytes) (w : ℕ) (size : length header ≡ 8) (tag_size : length tag ≡ 10)
      (w_bound : IsU32 w) where
    abbrev front : Bytes
    front = header ++ (body ++ be32 w)

    length-front : length front ≡ length body + 12
    length-front = omega (arith, length-append header (body ++ be32 w), length-append body (be32 w))

    length-packet : length (front ++ tag) ≡ length body + 22
    length-packet = omega (arith, length-front, length-append front tag)

    packet-front : take (length (front ++ tag) - 10) (front ++ tag) ≡ front
    packet-front = take-append _ front tag (omega (arith, length-packet, length-front))

    packet-tag : drop (length (front ++ tag) - 10) (front ++ tag) ≡ tag
    packet-tag = drop-append _ front tag (omega (arith, length-packet, length-front))

    packet_assoc : front ++ tag ≡ header ++ (body ++ (be32 w ++ tag))
    packet_assoc = simp append_assoc

    packet-header : take 8 (front ++ tag) ≡ header
    packet-header = rw packet_assoc (take-append 8 header _ (omega arith))

    packet-body : slice 8 (length (front ++ tag) - 10 - 4) (front ++ tag) ≡ body
    packet-body = rw length-packet (
        rw (packet_assoc, drop-append 8 header (body ++ (be32 w ++ tag)) (omega arith))
          (take-append _ body (be32 w ++ tag) (omega arith)))

    packet-index : read_be32 (front ++ tag) (length (front ++ tag) - 10 - 4) ≡ w
    packet-index =
        let parts : front ++ tag ≡ (header ++ body) ++ (be32 w ++ tag) = simp append_assoc in
        rw length-packet (
          rw parts (
            read_be32-append (header ++ body) tag _ w (omega (arith, length-append header body))
              w_bound))

  -- `UnprotectSrtcp` on a packet whose parts are known.
  unprotect_parts :
      (sender_ssrc : ℕ) (packet front tag header body : Bytes) (w : ℕ)
      → 22 ≤ length packet
      → take (length packet - 10) packet ≡ front
      → drop (length packet - 10) packet ≡ tag
      → tag ≡ take 10 (c.hmac_sha1 keys.auth_key front)
      → take 8 packet ≡ header
      → slice 8 (length packet - 10 - 4) packet ≡ body
      → read_be32 packet (length packet - 10 - 4) ≡ w
      → unprotect_srtcp c keys sender_ssrc packet ≡ (
          crypt_payload c keys sender_ssrc (u16 (w % 0x80000000)) (shr (w % 0x80000000) 16) body
          >>= λ out. some (header ++ out, w % 0x80000000))
  unfolding unprotect_srtcp
  unprotect_parts sender_ssrc packet front tag header body w long f t mac h b i =
      let enough : ltb (length packet) 22 ≡ false = ground arith in
      rw (enough, f, t, mac, bytes_equal_self, h, b, i) refl

  -- Under keys of the derived sizes an RTCP packet of at least eight bytes survives ProtectSrtcp
  -- and UnprotectSrtcp under any 31-bit index, and grows by 14 bytes.
  pub unprotect-protect_srtcp :
      (sender_ssrc index : ℕ) (rtcp : Bytes)
      → IsBytes rtcp
      → 8 ≤ length rtcp
      → index < 0x80000000
      → (packet : Bytes) × (protect_srtcp c keys sender_ssrc index rtcp ≡ some packet)
        × (unprotect_srtcp c keys sender_ssrc packet ≡ some (rtcp, index))
        × (length packet ≡ length rtcp + 14)
  unfolding protect_srtcp
  unprotect-protect_srtcp sender_ssrc index rtcp bytes long bound =
      let header = take 8 rtcp in
      let w = with_encrypted_flag index in
      let small : IsU32 w = omega arith in
      let (body, made, back, same, _) =
        crypt-crypt c keys sender_ssrc (u16 index) (shr index 16) (drop 8 rtcp) valid
          (All-drop IsU8 8 rtcp bytes) in
      let front = header ++ (body ++ be32 w) in
      let tag = take 10 (c.hmac_sha1 keys.auth_key front) in
      let size : length header ≡ 8 = omega (arith, length-take 8 rtcp) in
      let tag_size : length tag ≡ 10 = omega (
        arith,
        length-take 10 (c.hmac_sha1 keys.auth_key front),
        c.length-hmac_sha1 keys.auth_key front,
      ) in
      let split : (if ltb 8 (length rtcp) then 8 else length rtcp) ≡ 8 = ground arith in
      let long_enough = length-packet header body tag w size tag_size small in
      let index_back : w % 0x80000000 ≡ index = omega arith in
      let parts =
        unprotect_parts sender_ssrc (front ++ tag) front tag header body w
          (omega (arith, long_enough)) (packet-front header body tag w size tag_size small)
          (packet-tag header body tag w size tag_size small) refl
          (packet-header header body tag w size tag_size small)
          (packet-body header body tag w size tag_size small)
          (packet-index header body tag w size tag_size small) in
      (
        front ++ tag,
        rw (split, made),
        parts ∙ rw (index_back, back, take-append-drop 8 rtcp),
        omega (arith, long_enough, same, length-drop 8 rtcp),
      )
