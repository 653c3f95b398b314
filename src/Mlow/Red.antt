-- ===== src/Mlow/Red.antt =====
-- mlow/red.go: the RED layer of an MLow payload. A slice of the packet is a list of its bytes.
pub mod RoundTrip
mod Tests
use meowcaller.Base.{
  ℕ, zero, suc, ◌+◌, ◌-◌, ◌%◌, ◌⊎◌, inl, inr, Bool, true, false, List, [], ◌∷◌, ltb, leb, ◌==◌,
  if◌then◌else◌, length, take, drop, Bytes, byte_at,
}

-- `ErrPktSizeZero`, `ErrHeaderTooShort`, `ErrRedundantTooShort` and `ErrMainTooShort`
pub data RedError : Type 0 where
  pkt_size_zero header_too_short redundant_too_short main_too_short : RedError

pub record MlowFrame : Type 0 where
  pub payload : Bytes
  pub time_code : ℕ
  pub is_main : Bool

pub record RedBlock : Type 0 where
  pub code : ℕ
  pub size : ℕ

-- What the header loop leaves: the blocks, `rem`, and the packet from `cur` on.
pub record RedHeaders : Type 0 where
  pub blocks : List RedBlock
  pub remaining : ℕ
  pub rest : Bytes

abbrev prepend : RedBlock → RedError ⊎ RedHeaders → RedError ⊎ RedHeaders
prepend b (inl e) = inl e
prepend b (inr h) = inr (record h { blocks = b ∷ h.blocks })

-- The header loop, at the packet from `cur` on and `rem`. Each round takes two bytes of it, so its
-- size is enough fuel; `rem` is never above the bytes that are left.
unfoldable pub read_headers : ℕ → Bytes → ℕ → RedError ⊎ RedHeaders
read_headers zero rest rem = inl header_too_short
read_headers (suc fuel) rest rem =
    let b0 = byte_at rest 0 in
    let size = byte_at rest 1 in
    let more = read_headers fuel (drop 2 rest) (rem - (size + 2)) in
    if rem == 0
    then inl header_too_short
    else if ltb b0 0x80
    then (if leb rem 1
        then inl main_too_short
        else inr (record { blocks = []; remaining = rem; rest = rest }))
    else if leb rem 2
    then inl redundant_too_short
    else if leb rem (size + 2)
    then inl redundant_too_short
    else prepend (record { code = b0 % 128; size = size }) more

-- The loop that cuts the frames, from `cur` on.
unfoldable pub cut_frames : List RedBlock → ℕ → ℕ → Bytes → List MlowFrame
cut_frames [] main_code main_size rest =
    record { payload = take main_size rest; time_code = main_code; is_main = true } ∷ []
cut_frames (b ∷ blocks) main_code main_size rest =
    record { payload = take b.size rest; time_code = b.code; is_main = false }
    ∷ cut_frames blocks main_code main_size (drop b.size rest)

-- `DepackSplitRed`
unfoldable pub depack_split_red : Bytes → RedError ⊎ List MlowFrame
depack_split_red p =
    if length p == 0 then inl pkt_size_zero else elim (read_headers (length p) p (length p)) [
      | inl e ↦ inl e
      | inr h ↦ inr (cut_frames h.blocks (byte_at h.rest 0 % 128) (h.remaining - 1) (drop 1 h.rest))
    ]
