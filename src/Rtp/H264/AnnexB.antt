-- ===== src/Rtp/H264/AnnexB.antt =====
-- A byte stream is split at the start codes into the units that were put into it.
use meowcaller.Base.{
  ℕ, zero, suc, ◌+◌, ◌-◌, ◌≤◌, ◌<◌, ◌≡◌, refl, ap, ◌∙◌, Bool, none, some, List, [], ◌∷◌, ◌++◌,
  arith, length, drop, All, length-drop, length-append, append-nil, Bytes,
}
use meowcaller.Rtp.H264.{last_nalu, close_nalu, split_from, split_annex_b}
use meowcaller.Rtp.H264.StartCodes.{
  IsStreamUnit, start_code, length-start_code, split_from-over, split_from-code, close_nalu-unit,
  drop_over,
}

-- An access unit: its NAL units with a start code in front of each, long or short.
unfoldable pub byte_stream : List (Bool × Bytes) → Bytes
byte_stream [] = []
byte_stream ((long, unit) ∷ units) = start_code long ++ (unit ++ byte_stream units)

abbrev pub units_of : List (Bool × Bytes) → List Bytes
units_of [] = []
units_of ((long, unit) ∷ units) = unit ∷ units_of units

split_from-end :
    (fuel : ℕ) (unit xs : Bytes) (i : ℕ)
    → drop i xs ≡ unit
    → 0 < length unit
    → split_from fuel xs (some i) (i + length unit) ≡ unit ∷ []
unfolding split_from last_nalu
split_from-end zero unit xs i at k = ground (arith, length-drop i xs)
split_from-end (suc fuel) unit xs i at k = ground (arith, length-drop i xs)

unit-nonempty : (unit : Bytes) → IsStreamUnit unit → 0 < length unit
unit-nonempty [] k = absurd (omega arith)
unit-nonempty (b ∷ unit) k = omega arith

-- From the first byte of a unit on, with fuel for each byte that is left.
split_from-stream :
    (fuel : ℕ) (unit : Bytes) (units : List (Bool × Bytes)) (xs : Bytes) (i : ℕ)
    → drop i xs ≡ unit ++ byte_stream units
    → IsStreamUnit unit
    → All IsStreamUnit (units_of units)
    → length (byte_stream units) ≤ fuel
    → split_from (length unit + fuel) xs (some i) i ≡ unit ∷ units_of units
unfolding byte_stream
split_from-stream fuel unit [] xs i at (h, k) hs enough =
    split_from-over fuel unit [] xs (some i) i at h k
    ∙ split_from-end fuel unit xs i (at ∙ append-nil unit) (unit-nonempty unit (h, k))
split_from-stream zero unit ((long, v) ∷ units) xs i at (h, k) (hv, hs) enough = absurd (
    omega (arith, length-start_code long, length-append (start_code long) (v ++ byte_stream units)))
split_from-stream (suc fuel) unit ((long, v) ∷ units) xs i at (h, k) (hv, hs) enough =
    let tail = start_code long ++ (v ++ byte_stream units) in
    let end = i + length unit in
    let next = end + length (start_code long) in
    let at_code = drop_over unit tail xs i at in
    let at_next = drop_over (start_code long) (v ++ byte_stream units) xs end at_code in
    let left = fuel - length v in
    let room : (length v ≤ fuel) × (length (byte_stream units) ≤ left) = omega (
      arith,
      length-start_code long,
      length-append (start_code long) (v ++ byte_stream units),
      length-append v (byte_stream units),
    ) in
    let split : fuel ≡ length v + left = omega arith in
    rw
      (
        split_from-over (suc fuel) unit tail xs (some i) i at h k,
        split_from-code fuel long (v ++ byte_stream units) xs (some i) end at_code,
        close_nalu-unit unit tail xs i at k,
      )
      (ap (λ (n : ℕ). unit ∷ split_from n xs (some next) next) split
        ∙ ap (◌∷◌ unit) (split_from-stream left v units xs next at_next hv hs room.1))

-- From a byte stream of NAL units with a start code of three or four bytes in front of each,
-- where each unit ends in a byte other than zero and has no 00 00 01 inside, SplitAnnexB returns
-- these units in order and nothing else.
pub split_annex_b-byte_stream :
    (units : List (Bool × Bytes))
    → All IsStreamUnit (units_of units)
    → split_annex_b (byte_stream units) ≡ units_of units
unfolding split_annex_b byte_stream close_nalu
split_annex_b-byte_stream [] h = unfold split_from last_nalu in refl
split_annex_b-byte_stream ((long, v) ∷ units) (hv, hs) =
    let rest = v ++ byte_stream units in
    let xs = start_code long ++ rest in
    let first = 0 + length (start_code long) in
    let left = length xs - 1 - length v in
    let room : (length xs ≡ suc (length v + left)) × (length (byte_stream units) ≤ left) = omega (
      arith,
      length-start_code long,
      length-append (start_code long) rest,
      length-append v (byte_stream units),
    ) in
    ap (λ (n : ℕ). split_from n xs none 0) room.0
    ∙ split_from-code (length v + left) long rest xs none 0 refl
    ∙ split_from-stream left v units xs first (drop_over (start_code long) rest xs 0 refl) hv hs
        room.1
