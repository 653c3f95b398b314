-- ===== src/Media/Playout.antt =====
-- audio_playout.go: the buffer that lines decoded audio up by RTP timestamps. A sample is a float32,
-- taken by its bits, so that silence is 0. A sink says of each frame of a call whether its WriteFrame
-- gives no error.
pub mod Samples
mod Tests
use meowcaller.Base.{
  ℕ, suc, ◌+◌, ◌-◌, max, min, Bool, true, false, ◌||◌, Option, none, some, List, [], ◌∷◌, ◌++◌, ltb,
  ◌==◌, if◌then◌else◌, length, take, replicate, sub32,
}

abbrev pub Pcm : Type 0
Pcm = List ℕ

abbrev pub frame_samples : ℕ
frame_samples = 960

abbrev pub audio_playout_prefill_samples : ℕ
audio_playout_prefill_samples = 1920

abbrev pub audio_playout_max_gap_samples : ℕ
audio_playout_max_gap_samples = 32000

pub record AudioPlayoutFrame : Type 0 where
  pub timestamp : ℕ
  pub pcm : Pcm

pub record AudioPlayoutBuffer : Type 0 where
  pub pending : Option AudioPlayoutFrame
  pub prefill : List Pcm
  pub prefill_samples : ℕ
  pub started : Bool

-- `newAudioPlayoutBuffer`
unfoldable pub new_audio_playout_buffer : AudioPlayoutBuffer
new_audio_playout_buffer = record {
  pending = none;
  prefill = [];
  prefill_samples = 0;
  started = false;
}

-- `alignAudioFrame`
unfoldable pub align_audio_frame : Pcm → ℕ → Pcm
align_audio_frame frame samples =
    let n = min samples (max (length frame) frame_samples) in
    if n == length frame then frame else take n frame ++ replicate (n - length frame) 0

-- `reset`
unfoldable pub reset : ℕ → Pcm → AudioPlayoutBuffer
reset timestamp frame = record {
  pending = some (record { timestamp = timestamp; pcm = frame });
  prefill = [];
  prefill_samples = 0;
  started = false;
}

-- What a call gives back: the buffer, `startedNow`, that there was no error, and the frames that the
-- sink took.
pub record Pushed : Type 0 where
  pub buffer : AudioPlayoutBuffer
  pub started_now : Bool
  pub fine : Bool
  pub written : List Pcm

abbrev pub nothing_written : AudioPlayoutBuffer → Pushed
nothing_written p = record { buffer = p; started_now = false; fine = true; written = [] }

-- The loop that lets the oldest frames go.
unfoldable pub shrink : List Pcm → ℕ → List Pcm × ℕ
shrink [] n = ([], n)
shrink (f ∷ []) n = (f ∷ [], n)
shrink (f ∷ (g ∷ frames)) n =
    let fewer = shrink (g ∷ frames) (n - length f) in
    if ltb audio_playout_max_gap_samples n then fewer else (f ∷ (g ∷ frames), n)

-- The loop that writes the prefill: from frame `k` on, up to an error.
unfoldable pub drain : (ℕ → Bool) → ℕ → AudioPlayoutBuffer → List Pcm → ℕ → Pushed
drain sink k p [] n = record {
  buffer = record p { prefill = []; prefill_samples = n; started = true };
  started_now = true;
  fine = true;
  written = [];
}
drain sink k p (f ∷ frames) n =
    let rest = drain sink (suc k) p frames (n - length f) in
    if sink k then record rest { written = f ∷ rest.written } else record {
      buffer = record p { prefill = f ∷ frames; prefill_samples = n };
      started_now = false;
      fine = false;
      written = [];
    }

-- The end of `Push`, with the frame in the prefill.
unfoldable pub fill : AudioPlayoutBuffer → Option (ℕ → Bool) → Pushed
fill p none = nothing_written p
fill p (some sink) =
    if ltb p.prefill_samples audio_playout_prefill_samples
    then nothing_written p
    else drain sink 0 p p.prefill p.prefill_samples

-- What `Push` does with the frame that is ready.
unfoldable pub prefill_ready : AudioPlayoutBuffer → Pcm → Option (ℕ → Bool) → Pushed
prefill_ready p ready sink =
    let (frames, n) = shrink (p.prefill ++ (ready ∷ [])) (p.prefill_samples + length ready) in
    fill (record p { prefill = frames; prefill_samples = n }) sink

abbrev pub stopped : AudioPlayoutBuffer → AudioPlayoutBuffer
stopped p = record p { prefill = []; prefill_samples = 0; started = false }

unfoldable pub push_ready : AudioPlayoutBuffer → Pcm → Option (ℕ → Bool) → Pushed
push_ready p ready none = prefill_ready (if p.started then stopped p else p) ready none
push_ready p ready (some sink) =
    if p.started
    then record {
      buffer = p;
      started_now = false;
      fine = sink 0;
      written = if sink 0 then ready ∷ [] else [];
    }
    else prefill_ready p ready (some sink)

-- `Push` behind the test of `p.pending`.
unfoldable pub push_behind :
    Option AudioPlayoutFrame → AudioPlayoutBuffer → ℕ → Pcm → Option (ℕ → Bool) → Pushed
push_behind none p timestamp frame sink =
    nothing_written (record p { pending = some (record { timestamp = timestamp; pcm = frame }) })
push_behind (some held) p timestamp frame sink =
    let next : AudioPlayoutFrame = record { timestamp = timestamp; pcm = frame } in
    let delta = sub32 timestamp held.timestamp in
    if delta == 0 || ltb audio_playout_max_gap_samples delta
    then nothing_written (reset timestamp frame)
    else push_ready (record p { pending = some next }) (align_audio_frame held.pcm delta) sink

-- `Push`
unfoldable pub push : AudioPlayoutBuffer → ℕ → Pcm → Option (ℕ → Bool) → Pushed
push p timestamp frame sink = push_behind p.pending p timestamp frame sink

-- `Flush`
unfoldable pub flush : AudioPlayoutBuffer → Option (ℕ → Bool) → Pushed
flush p none = nothing_written p
flush p (some sink) = elim p.pending [
  | none ↦ nothing_written p
  | some held ↦
      if p.started
      then record {
        buffer = record p { pending = none };
        started_now = false;
        fine = sink 0;
        written = if sink 0 then held.pcm ∷ [] else [];
      }
      else nothing_written p
]
