-- ===== src/Mlow/Red/RoundTrip.antt =====
-- The layout of a RED packet, and that it is taken apart into its frames.
use meowcaller.Base.{
  ℕ, zero, suc, ◌+◌, ◌-◌, ◌%◌, ◌<◌, ◌≡◌, refl, ap, ◌∙◌, inr, true, false, List, [], ◌∷◌, ◌++◌,
  append_assoc, arith, ◌==◌, length, All, length-append, take-append, drop-append, take-length,
  Bytes,
}
use meowcaller.Mlow.Red.{MlowFrame, RedBlock, read_headers, cut_frames, depack_split_red}

-- A redundant frame: its time code and its bytes.
abbrev pub Redundant : Type 0
Redundant = ℕ × Bytes

abbrev pub IsRedundant : Redundant → Type 0
IsRedundant r = (r.0 < 128) × (length r.1 < 256)

unfoldable pub red_headers : List Redundant → Bytes
red_headers [] = []
red_headers (r ∷ rs) = (r.0 + 128) ∷ length r.1 ∷ red_headers rs

unfoldable pub red_bodies : List Redundant → Bytes
red_bodies [] = []
red_bodies (r ∷ rs) = r.1 ++ red_bodies rs

-- Two bytes for each redundant frame, the main frame's code with its high bit clear, the redundant
-- frames, and the main frame.
unfoldable pub red_packet : List Redundant → ℕ → Bytes → Bytes
red_packet rs code main = red_headers rs ++ (code ∷ (red_bodies rs ++ main))

unfoldable pub red_frames : List Redundant → ℕ → Bytes → List MlowFrame
red_frames [] code main = record { payload = main; time_code = code; is_main = true } ∷ []
red_frames (r ∷ rs) code main =
    record { payload = r.1; time_code = r.0; is_main = false } ∷ red_frames rs code main

unfoldable blocks_of : List Redundant → List RedBlock
blocks_of [] = []
blocks_of (r ∷ rs) = record { code = r.0; size = length r.1 } ∷ blocks_of rs

-- The size of the redundant part.
unfoldable weight : List Redundant → ℕ
weight [] = 0
weight (r ∷ rs) = length r.1 + 2 + weight rs

read_headers_lem :
    (fuel : ℕ) (rs : List Redundant) (code n : ℕ) (rest : Bytes)
    → length rs < fuel
    → All IsRedundant rs
    → code < 128
    → 0 < n
    → read_headers fuel (red_headers rs ++ (code ∷ rest)) (weight rs + suc n)
      ≡ inr (record { blocks = blocks_of rs; remaining = suc n; rest = code ∷ rest })
unfolding read_headers red_headers weight blocks_of
read_headers_lem zero rs code n rest f v c p = absurd (omega arith)
read_headers_lem (suc fuel) [] code n rest f v c p = ground arith
read_headers_lem (suc fuel) ((a, xs) ∷ rs) code n rest f ((va, vx), v) c p =
    let left : length xs + 2 + weight rs + suc n - (length xs + 2) ≡ weight rs + suc n =
      omega arith in
    let next = read_headers_lem fuel rs code n rest (omega arith) v c p in
    rw left (ground (arith, next))

cut_frames_lem :
    (rs : List Redundant) (code : ℕ) (main : Bytes)
    → cut_frames (blocks_of rs) code (length main) (red_bodies rs ++ main) ≡ red_frames rs code main
unfolding cut_frames blocks_of red_bodies red_frames
cut_frames_lem [] code main = rw (take-length (length main) main (omega arith)) refl
cut_frames_lem ((a, xs) ∷ rs) code main =
    rw
      (
        append_assoc xs (red_bodies rs) main,
        take-append (length xs) xs (red_bodies rs ++ main) refl,
        drop-append (length xs) xs (red_bodies rs ++ main) refl,
        cut_frames_lem rs code main,
      )
      refl

length-red_packet :
    (rs : List Redundant) (code : ℕ) (main : Bytes)
    → (length (red_packet rs code main) ≡ weight rs + suc (length main))
      × (length rs < length (red_packet rs code main))
unfolding red_packet red_headers red_bodies weight
length-red_packet [] code main = omega arith
length-red_packet ((a, xs) ∷ rs) code main = omega (
  arith,
  length-red_packet rs code main,
  length-append (red_headers rs) (code ∷ ((xs ++ red_bodies rs) ++ main)),
  length-append (red_headers rs) (code ∷ (red_bodies rs ++ main)),
  length-append (xs ++ red_bodies rs) main,
  length-append xs (red_bodies rs),
  length-append (red_bodies rs) main,
)

-- A RED packet of any number of redundant frames of at most 255 bytes with 7-bit time codes, and
-- a main frame of at least one byte, is taken apart by DepackSplitRed into these frames, in order
-- and the main one last.
pub depack-red_packet :
    (rs : List Redundant) (code : ℕ) (main : Bytes)
    → All IsRedundant rs
    → code < 128
    → 0 < length main
    → depack_split_red (red_packet rs code main) ≡ inr (red_frames rs code main)
unfolding depack_split_red
depack-red_packet rs code main v c p =
    let xs = red_packet rs code main in
    let (size, few) = length-red_packet rs code main in
    let some_bytes : (length xs == 0) ≡ false = ground (arith, size) in
    let headers : read_headers (length xs) xs (weight rs + suc (length main))
        ≡ inr (record {
          blocks = blocks_of rs;
          remaining = suc (length main);
          rest = code ∷ (red_bodies rs ++ main);
        }) =
      unfold red_packet in
      read_headers_lem (length xs) rs code (length main) (red_bodies rs ++ main) few v c p in
    let headers' : read_headers (length xs) xs (length xs)
        ≡ inr (record {
          blocks = blocks_of rs;
          remaining = suc (length main);
          rest = code ∷ (red_bodies rs ++ main);
        }) =
      ap (λ n. read_headers (length xs) xs n) size ∙ headers in
    let code_is : code % 128 ≡ code = omega arith in
    let main_size : suc (length main) - 1 ≡ length main = omega arith in
    rw (some_bytes, headers', code_is, main_size, cut_frames_lem rs code main) refl
