-- ===== src/Rtp/Header/Scan.antt =====
-- The loop of `ParseWhatsappVideoExtension`: its fuel is enough, and it reads a complete
-- extension from no fewer than eight bytes.
use meowcaller.Base.{
  ℕ, zero, suc, ◌+◌, ◌≤◌, ◌<◌, ◌≡◌, refl, inl, inr, Option, none, some, [], ◌∷◌, arith, ◌==◌,
  if◌then◌else◌, Bool-cases, Option-cases, ◌>>=◌, Loop, returns, out_of_fuel, Returns, loop_result,
  length, take, length-drop, Bytes, shr, low_bits,
}
use meowcaller.Rtp.Header.Parser.{Found, found_nothing, store, element, scan, complete}

element-length :
    (header : ℕ) (rest : Bytes) (s : Found) {rest' : Bytes} {s' : Found}
    → element header rest s ≡ some (rest', s')
    → length rest' ≤ length rest
unfolding element
element-length header rest s h = ground (arith, length-drop (low_bits header 4 + 1) rest)

-- The loop of ParseWhatsappVideoExtension ends within as many rounds as the extension has bytes,
-- whatever was found before.
pub scan-Returns : (fuel : ℕ) (xs : Bytes) (s : Found) → length xs ≤ fuel → Returns (scan fuel xs s)
unfolding scan
scan-Returns fuel [] s h = (some s, refl)
scan-Returns zero (header ∷ rest) s h = absurd (omega arith)
scan-Returns (suc fuel) (header ∷ rest) s h = elim (Bool-cases (header == 0)) [
  | inl e ↦ rw (e, scan) (scan-Returns fuel rest s (omega arith))
  | inr e ↦
      rw (e, scan)
        (elim (Option-cases (element header rest s)) [
          | inl f ↦ rw f (none, refl)
          | inr ((rest', s'), f) ↦
              rw f (scan-Returns fuel rest' s' (omega (arith, element-length header rest s f)))
        ])
]

-- How many bytes the fields found so far have taken.
abbrev weight : Found → ℕ
weight s =
    (if s.has_frame_info then 2 else 0)
    + (if s.has_short_offset then 3 else 0)
    + (if s.has_transport_sequence then 3 else 0)

store-weight :
    (id len : ℕ) (value : Bytes) (s s' : Found)
    → 1 ≤ len
    → store id len value s ≡ some s'
    → weight s' ≤ weight s + (len + 1)
unfolding store
store-weight id len value s s' h e = ground arith

element-weight :
    (header : ℕ) (rest : Bytes) (s : Found) (rest' : Bytes) (s' : Found)
    → element header rest s ≡ some (rest', s')
    → weight s' + length rest' ≤ weight s + suc (length rest)
unfolding element
element-weight header rest s rest' s' h =
    let len = low_bits header 4 + 1 in
    ground (arith, length-drop len rest, store-weight (shr header 4) len (take len rest) s s')

scan-weight :
    (fuel : ℕ) (xs : Bytes) (s s' : Found)
    → scan fuel xs s ≡ returns (some s')
    → weight s' ≤ weight s + length xs
unfolding scan
scan-weight fuel [] s s' h = ground arith
scan-weight zero (header ∷ rest) s s' h = cc
scan-weight (suc fuel) (header ∷ rest) s s' h = elim (Bool-cases (header == 0)) [
  | inl e ↦ omega (arith, scan-weight fuel rest s s' (rw (e, scan) at h))
  | inr e ↦ elim (Option-cases (element header rest s)) [
    | inl f ↦ cc (rw (e, scan, f) at h)
    | inr ((rest', t), f) ↦ omega (
      arith,
      scan-weight fuel rest' t s' (rw (e, scan, f) at h),
      element-weight header rest s rest' t f,
    )
  ]
]

-- No block below eight bytes holds the three fields that the parser requires.
pub scan_short :
    (fuel : ℕ) (xs : Bytes)
    → length xs < 8
    → (loop_result (scan fuel xs found_nothing) >>= complete) ≡ none
scan_short fuel xs h = go (scan fuel xs found_nothing) refl
  where
    go :
        (r : Loop (Option Found))
        → scan fuel xs found_nothing ≡ r
        → (loop_result r >>= complete) ≡ none
    go out_of_fuel e = refl
    go (returns none) e = refl
    go (returns (some s)) e = ground (arith, scan-weight fuel xs found_nothing s e)
