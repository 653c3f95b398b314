-- ===== src/Srtp/Warp.antt =====
-- The WARP extension words and message-integrity tag of srtp/warp.go. HMAC-SHA1 is not in the
-- repository: it is a parameter (`Crypto`).
use meowcaller.Base.{
  ℕ, ◌+◌, ◌-◌, ◌≤◌, ◌≡◌, Bool, not, ◌||◌, Option, none, some, [], ◌∷◌, ◌++◌, arith, ltb,
  if◌then◌else◌, length, take, length-append, length-take, take-append, Bytes, be32, read_be32,
}
use meowcaller.Srtp.Crypto.{Crypto}

abbrev pub warp_mi_tag_len : ℕ
warp_mi_tag_len = 4

abbrev pub warp_piggyback_start_packet : ℕ
warp_piggyback_start_packet = 2

abbrev warp_audio_piggyback_ext : Bytes
warp_audio_piggyback_ext = 0x30 ∷ 0x01 ∷ 0x00 ∷ 0x00 ∷ []

-- `AudioPiggybackExtensionFor`
unfoldable pub audio_piggyback_extension_for : ℕ → Bool → ℕ → Option ℕ
audio_piggyback_extension_for packet_index enabled start_packet =
    if not enabled || ltb packet_index start_packet
    then none
    else some (read_be32 warp_audio_piggyback_ext 0)

module _ (c : Crypto) where
  -- `ComputeWarpMITag`: what is written to the MAC one after the other is appended.
  unfoldable pub compute_warp_mi_tag : Bytes → Bytes → ℕ → ℕ → Bytes
  compute_warp_mi_tag auth_key packet roc tag_len =
      take tag_len (c.hmac_sha1 auth_key (packet ++ be32 roc))

  -- `AppendWarpMITag`
  unfoldable pub append_warp_mi_tag : Bytes → Bytes → ℕ → ℕ → Bytes
  append_warp_mi_tag auth_key packet roc tag_len =
      packet ++ compute_warp_mi_tag auth_key packet roc tag_len

  pub length-append_warp_mi_tag :
      (auth_key packet : Bytes) (roc tag_len : ℕ)
      → tag_len ≤ 20
      → length (append_warp_mi_tag auth_key packet roc tag_len) ≡ length packet + tag_len
  unfolding append_warp_mi_tag compute_warp_mi_tag
  length-append_warp_mi_tag auth_key packet roc tag_len h = omega (
    arith,
    length-append packet (take tag_len (c.hmac_sha1 auth_key (packet ++ be32 roc))),
    length-take tag_len (c.hmac_sha1 auth_key (packet ++ be32 roc)),
    c.length-hmac_sha1 auth_key (packet ++ be32 roc),
  )

  -- Cutting the tag's length off the end gives the packet back.
  pub take-append_warp_mi_tag :
      (auth_key packet : Bytes) (roc tag_len : ℕ)
      → tag_len ≤ 20
      → take
          (length (append_warp_mi_tag auth_key packet roc tag_len) - tag_len)
          (append_warp_mi_tag auth_key packet roc tag_len)
        ≡ packet
  take-append_warp_mi_tag auth_key packet roc tag_len h =
      let n = length-append_warp_mi_tag auth_key packet roc tag_len h in
      unfold append_warp_mi_tag in
      take-append _ packet _ (unfold append_warp_mi_tag in omega (arith, n))
