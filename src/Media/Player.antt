-- ===== src/Media/Player.antt =====
-- player.go: the player of a call. A source is a number, and closing it is noted. `nextFrame` reads
-- its source outside the lock, so that other calls can come between its two locked parts: these are
-- two steps, and what it holds in between is part of the state. A call sends from one loop, so one
-- `nextFrame` runs at a time. The callback of OnFinish is a count of its calls.
pub mod Sources
mod Tests
use meowcaller.Base.{if◌then◌else◌, ℕ, ◌+◌, Bool, false, Option, none, some, List, [], ◌∷◌, ◌==◌}

-- `PlayerState`
pub data PlayerState : Type 0 where
  player_idle : PlayerState
  player_playing : PlayerState
  player_paused : PlayerState

pub record Player : Type 0 where
  pub src : Option ℕ
  pub state : PlayerState
  pub closed : List ℕ
  -- The source that `nextFrame` reads.
  pub reading : Option ℕ
  pub has_on_finish : Bool
  pub finished : ℕ

-- `NewPlayer`
unfoldable pub new_player : Player
new_player = record {
  src = none;
  state = player_idle;
  closed = [];
  reading = none;
  has_on_finish = false;
  finished = 0;
}

-- `if old != nil { _ = old.Close() }`
abbrev pub close_old : Option ℕ → List ℕ → List ℕ
close_old none closed = closed
close_old (some old) closed = old ∷ closed

abbrev same_source : Option ℕ → ℕ → Bool
same_source none x = false
same_source (some y) x = y == x

-- `Play`; a nil source is `none`.
unfoldable pub play : Option ℕ → Player → Player
play src p = record p { src = src; state = player_playing; closed = close_old p.src p.closed }

-- `Pause`
unfoldable pub pause : Player → Player
pause p = elim p.state [
  | player_playing ↦ record p { state = player_paused }
  | player_idle ↦ p
  | player_paused ↦ p
]

-- `Resume`
unfoldable pub resume : Player → Player
resume p = elim p.state [
  | player_paused ↦ record p { state = player_playing }
  | player_idle ↦ p
  | player_playing ↦ p
]

-- `Stop`
unfoldable pub stop : Player → Player
stop p = record p { src = none; state = player_idle; closed = close_old p.src p.closed }

-- `OnFinish`, with or without a callback.
unfoldable pub on_finish : Bool → Player → Player
on_finish callback p = record p { has_on_finish = callback }

-- The first part of `nextFrame`.
unfoldable pub begin_frame : Player → Player
begin_frame p = elim p.state [
  | player_playing ↦ record p { reading = p.src }
  | player_idle ↦ p
  | player_paused ↦ p
]

-- The second part, behind a `ReadFrame` of source `x` that gave an error.
unfoldable pub source_ended : ℕ → Player → Player
source_ended x p =
    if same_source p.src x
    then record p {
      src = none;
      state = player_idle;
      reading = none;
      closed = x ∷ p.closed;
      finished = if p.has_on_finish then p.finished + 1 else p.finished;
    }
    else record p { reading = none; closed = x ∷ p.closed }

-- The end of `nextFrame`; the flag is that `ReadFrame` gave a frame.
unfoldable pub end_frame : Bool → Player → Player
end_frame ok p = elim p.reading [
  | none ↦ p
  | some x ↦ if ok then record p { reading = none } else source_ended x p
]
