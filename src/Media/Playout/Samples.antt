-- ===== src/Media/Playout/Samples.antt =====
-- How many samples the buffer holds and writes.
use meowcaller.Base.{
  ℕ, ◌+◌, ◌≡◌, ◌⊎◌, Bool, false, ◌||◌, Option, none, some, List, [], ◌∷◌, ltb, ◌==◌, if◌then◌else◌,
  length, sub32,
}
use meowcaller.Media.Playout.{Pcm, AudioPlayoutBuffer, AudioPlayoutFrame, push}

unfoldable pub total : List Pcm → ℕ
total [] = 0
total (f ∷ frames) = length f + total frames

-- The count of the prefill is right, and nothing is held back behind the start.
abbrev pub IsBuffer : AudioPlayoutBuffer → Type 0
IsBuffer p = (p.prefill_samples ≡ total p.prefill) × ((p.started ≡ false) ⊎ (p.prefill_samples ≡ 0))

-- The RTP time between the frame that is held and a new one, where it is no gap.
unfoldable pub elapsed : Option AudioPlayoutFrame → ℕ → ℕ
elapsed none timestamp = 0
elapsed (some held) timestamp =
    let delta = sub32 timestamp held.timestamp in if delta == 0 || ltb 32000 delta then 0 else delta

-- A call of Push.
pub record PushInput : Type 0 where
  pub timestamp : ℕ
  pub frame : Pcm
  pub sink : Option (ℕ → Bool)

-- Calls one after the other: the samples that the sinks took, and the RTP time between frames.
unfoldable pub samples_written : AudioPlayoutBuffer → List PushInput → ℕ
samples_written p [] = 0
samples_written p (x ∷ xs) =
    let r = push p x.timestamp x.frame x.sink in total r.written + samples_written r.buffer xs

unfoldable pub time_passed : AudioPlayoutBuffer → List PushInput → ℕ
time_passed p [] = 0
time_passed p (x ∷ xs) =
    let r = push p x.timestamp x.frame x.sink in
    elapsed p.pending x.timestamp + time_passed r.buffer xs
