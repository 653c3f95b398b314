-- ===== src/Rtp/H264/Fragments.antt =====
-- A NAL unit that is split over packets is put together again.
use meowcaller.Base.{
  ℕ, zero, suc, ◌+◌, ◌-◌, ◌≤◌, ◌<◌, min, ◌≡◌, refl, sym, ap, ◌∙◌, inl, inr, Bool, true, false, List,
  [], ◌∷◌, ◌++◌, append_assoc, arith, leb, ◌==◌, if◌then◌else◌, Bool-cases, length, take,
  length-append, length-take, take-length, Bytes, IsU8, slice,
}
use meowcaller.Rtp.H264.{
  H264Depacketizer, depacketize, fu_a, fu_a_end, fragments, package_h264_nalu, fu_header,
  f_bit_and_nri, type_bits, mtu_payload_max, fu_a_type,
}

-- The units that a run of payloads gives.
unfoldable pub depacketize_all : H264Depacketizer → List Bytes → List Bytes
depacketize_all d [] = []
depacketize_all d (p ∷ ps) = let (d', units) = depacketize d p in units ++ depacketize_all d' ps

-- A run of payloads behind another starts at the state that the first one left.
pub depacketize_all-append :
    (d : H264Depacketizer) (ps qs : List Bytes)
    → (d' : H264Depacketizer) × (depacketize_all d (ps ++ qs)
        ≡ depacketize_all d ps ++ depacketize_all d' qs)
unfolding depacketize_all
depacketize_all-append d [] qs = (d, refl)
depacketize_all-append d (p ∷ ps) qs =
    let (next, units) = depacketize d p in
    let (d', e) = depacketize_all-append next ps qs in
    (
      d',
      ap (◌++◌ units) e
          ∙ sym (append_assoc units (depacketize_all next ps) (depacketize_all d' qs)),
    )

slice-zero : (hi : ℕ) (xs : Bytes) → slice 0 hi xs ≡ take hi xs
slice-zero hi xs = ap (λ n. take n xs) (omega arith)

take-slice : (lo hi : ℕ) (xs : Bytes) → lo ≤ hi → take lo xs ++ slice lo hi xs ≡ take hi xs
take-slice zero hi xs h = slice-zero hi xs
take-slice (suc lo) zero xs h = absurd (omega arith)
take-slice (suc lo) (suc hi) [] h = take-length (suc hi - suc lo) [] (omega arith)
take-slice (suc lo) (suc hi) (x ∷ xs) h =
    let same : suc hi - suc lo ≡ hi - lo = omega arith in
    ap (◌∷◌ x) (rw same (take-slice lo hi xs (omega arith)))

depacketize-single :
    (d : H264Depacketizer) (header : ℕ) (body : Bytes)
    → 1 ≤ type_bits header
    → type_bits header ≤ 23
    → depacketize d (header ∷ body) ≡ (record d { fu_active = false }, (header ∷ body) ∷ [])
unfolding depacketize
depacketize-single d header body lo hi = ground arith

fu_a_end-more : (d : H264Depacketizer) → fu_a_end d 0 ≡ (d, [])
unfolding fu_a_end
fu_a_end-more d = refl

fu_a_end-last :
    (d : H264Depacketizer)
    → d.fu_active ≡ true
    → fu_a_end d 1 ≡ (record d { fu_active = false; fu_buf = [] }, d.fu_buf ∷ [])
unfolding fu_a_end
fu_a_end-last d a = rw a refl

-- The first fragment opens the buffer.
depacketize_first :
    (d : H264Depacketizer) (header : ℕ) (last : Bool) (chunk : Bytes)
    → IsU8 header
    → depacketize d
        ((f_bit_and_nri header + fu_a_type) ∷ fu_header (type_bits header) true last ∷ chunk)
      ≡ fu_a_end
          (record {
            fu_buf = header ∷ chunk;
            fu_type = type_bits header;
            fu_nri_f = f_bit_and_nri header;
            fu_active = true;
          })
          (if last then 1 else 0)
unfolding depacketize fu_a fu_a_end
depacketize_first d header last chunk b = ground arith

-- A later one extends it.
depacketize_later :
    (d : H264Depacketizer) (header : ℕ) (last : Bool) (chunk : Bytes)
    → IsU8 header
    → d.fu_active ≡ true
    → length d.fu_buf + length chunk ≤ 4194304
    → depacketize d
        ((f_bit_and_nri header + fu_a_type) ∷ fu_header (type_bits header) false last ∷ chunk)
      ≡ fu_a_end (record d { fu_buf = d.fu_buf ++ chunk }) (if last then 1 else 0)
unfolding depacketize fu_a fu_a_end
depacketize_later d header last chunk b a n = ground arith

-- No fragment starts at the end of the body.
fragments-end :
    (fuel fu_indicator original_type : ℕ) (body : Bytes) (offset : ℕ)
    → length body ≤ offset
    → fragments fuel fu_indicator original_type body offset ≡ []
unfolding fragments
fragments-end zero fu_indicator original_type body offset h = refl
fragments-end (suc fuel) fu_indicator original_type body offset h = ground arith

fragments-step :
    (fuel fu_indicator original_type : ℕ) (body : Bytes) (offset : ℕ)
    → offset < length body
    → fragments (suc fuel) fu_indicator original_type body offset
      ≡ (fu_indicator
          ∷ fu_header original_type (offset == 0) (min (offset + 798) (length body) == length body)
          ∷ slice offset (min (offset + 798) (length body)) body)
        ∷ fragments fuel fu_indicator original_type body (min (offset + 798) (length body))
unfolding fragments
fragments-step fuel fu_indicator original_type body offset h = ground (arith, h)

module _ (header : ℕ) (body : Bytes) (b : IsU8 header) (n : suc (length body) ≤ 4194304) where
  abbrev rest_of : ℕ → ℕ → List Bytes
  rest_of fuel offset =
      fragments fuel (f_bit_and_nri header + fu_a_type) (type_bits header) body offset

  -- From an offset on, behind a buffer with what is in front of it, the whole unit comes out.
  depacketize-later :
      (fuel : ℕ) (d : H264Depacketizer) (offset : ℕ)
      → 0 < offset
      → offset < length body
      → length body ≤ fuel + offset
      → d.fu_active ≡ true
      → d.fu_buf ≡ header ∷ take offset body
      → depacketize_all d (rest_of fuel offset) ≡ (header ∷ body) ∷ []
  unfolding depacketize_all
  depacketize-later zero d offset p l f a e = absurd (omega arith)
  depacketize-later (suc fuel) d offset p l f a e =
      let end = min (offset + 798) (length body) in
      let chunk = slice offset end body in
      let grown : d.fu_buf ++ chunk ≡ header ∷ take end body =
        rw e (ap (◌∷◌ header) (take-slice offset end body (omega arith))) in
      let size : length d.fu_buf + length chunk ≤ 4194304 =
        omega (arith, ap length grown, length-append d.fu_buf chunk, length-take end body) in
      let middle : (offset == 0) ≡ false = ground arith in
      rw
        (
          fragments-step fuel (f_bit_and_nri header + fu_a_type) (type_bits header) body offset l,
          middle,
        )
        (rw (depacketize_later d header (end == length body) chunk b a size)
          (elim (Bool-cases (end == length body)) [
            | inl last ↦
                let all : end ≡ length body = ground (arith, last) in
                let whole : take end body ≡ body = take-length end body (omega arith) in
                rw
                  (
                    last,
                    fu_a_end-last (record d { fu_buf = d.fu_buf ++ chunk }) a,
                    fragments-end fuel (f_bit_and_nri header + fu_a_type) (type_bits header) body
                        end (omega arith),
                    grown,
                    whole,
                  )
                  refl
            | inr more ↦
                let there : end < length body = ground (arith, more) in
                rw (more, fu_a_end-more (record d { fu_buf = d.fu_buf ++ chunk }))
                  (depacketize-later fuel (record d { fu_buf = d.fu_buf ++ chunk }) end
                    (omega arith) there (omega arith) a grown)
          ]))

  depacketize-split :
      (fuel : ℕ) (d : H264Depacketizer)
      → 800 ≤ length body
      → fuel ≡ length body
      → depacketize_all d (rest_of fuel 0) ≡ (header ∷ body) ∷ []
  unfolding depacketize_all
  depacketize-split zero d large f = absurd (omega arith)
  depacketize-split (suc fuel) d large f =
      let end : min (0 + 798) (length body) ≡ 798 = omega arith in
      let more : (798 == length body) ≡ false = ground arith in
      let opened : H264Depacketizer = record {
        fu_buf = header ∷ slice 0 798 body;
        fu_type = type_bits header;
        fu_nri_f = f_bit_and_nri header;
        fu_active = true;
      } in
      rw
        (
          fragments-step fuel (f_bit_and_nri header + fu_a_type) (type_bits header) body 0
              (omega arith),
          end,
          more,
          depacketize_first d header false (slice 0 798 body) b,
          fu_a_end-more opened,
        )
        (depacketize-later fuel opened 798 (omega arith) (omega arith) (omega arith) refl
          (ap (◌∷◌ header) (slice-zero 798 body)))

  -- A NAL unit of type 1 to 23 and at most 4 MiB comes out of the depacketizer as it went into
  -- PackageH264NALU, whether it is sent whole or in FU-A fragments, whatever the depacketizer
  -- held before.
  pub package-depacketize :
      (d : H264Depacketizer)
      → 1 ≤ type_bits header
      → type_bits header ≤ 23
      → depacketize_all d (package_h264_nalu (header ∷ body)) ≡ (header ∷ body) ∷ []
  unfolding package_h264_nalu depacketize_all
  package-depacketize d lo hi = elim (Bool-cases (leb (suc (length body)) mtu_payload_max)) [
    | inl small ↦ rw (small, depacketize-single d header body lo hi) refl
    | inr large ↦ rw large (depacketize-split (length body) d (ground (arith, large)) refl)
  ]
