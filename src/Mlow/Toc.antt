-- ===== src/Mlow/Toc.antt =====
-- mlow/toc.go: the first byte of an MLow frame.
pub mod Fields
mod Tests
use meowcaller.Base.{
  ℕ, ◌-◌, ◌%◌, Bool, true, false, not, ◌&&◌, ◌||◌, ltb, ◌==◌, if◌then◌else◌, shr, bit,
}

pub record SmplToc : Type 0 where
  pub std_opus : Bool
  pub sid : Bool
  pub vad : Bool
  pub sample_rate : ℕ
  pub frame_ms : ℕ
  pub voiced : Bool
  pub active : Bool
  pub flag2 : Bool
  pub flag0 : Bool

-- `[]int{a, b, c, d}[i]` at an index below 4.
abbrev pub one_of : (i a b c d : ℕ) → ℕ
one_of i a b c d = if i == 0 then a else if i == 1 then b else if i == 2 then c else d

unfoldable pub standard_opus_frame_ms : ℕ → ℕ
standard_opus_frame_ms b =
    let config = shr b 3 in
    if ltb config 12
    then one_of (config % 4) 10 20 40 60
    else if ltb config 16
    then (if (config - 12) % 2 == 0 then 10 else 20)
    else one_of (config % 4) 3 5 10 20

-- `ParseSmplTOC`; the mask 0xC0 is the two upper bits.
unfoldable pub parse_smpl_toc : ℕ → SmplToc
parse_smpl_toc b =
    let bit1 = bit b 1 == 1 in
    let vad = bit b 6 == 1 in
    if shr b 6 == 3
    then record {
      std_opus = true;
      sid = false;
      vad = false;
      sample_rate = 16000;
      frame_ms = standard_opus_frame_ms b;
      voiced = false;
      active = false;
      flag2 = false;
      flag0 = false;
    }
    else record {
      std_opus = false;
      sid = not (shr b 7 == 0);
      vad = vad;
      sample_rate = if bit b 5 == 1 then 32000 else 16000;
      frame_ms = one_of (shr b 3 % 4) 10 20 60 120;
      voiced = vad && bit1;
      active = vad || bit1;
      flag2 = bit b 2 == 1;
      flag0 = bit b 0 == 1;
    }
