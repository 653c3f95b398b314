-- ===== src/Media/Player/Sources.antt =====
-- What becomes of a source.
use meowcaller.Base.{
  ℕ, ◌≡◌, refl, ◌⊎◌, inl, inr, Bool, true, false, ◌||◌, Option, none, some, List, [], ◌∷◌, arith,
  ◌==◌,
}
use meowcaller.Media.Player.{
  Player, close_old, play, pause, resume, stop, on_finish, begin_frame, source_ended, end_frame,
}

-- A call of the player, or one of the parts of `nextFrame`.
pub data PlayerOp : Type 0 where
  do_play : Option ℕ → PlayerOp
  do_pause : PlayerOp
  do_resume : PlayerOp
  do_stop : PlayerOp
  do_on_finish : Bool → PlayerOp
  do_begin : PlayerOp
  do_end : Bool → PlayerOp

unfoldable pub player_step : Player → PlayerOp → Player
player_step p (do_play src) = play src p
player_step p do_pause = pause p
player_step p do_resume = resume p
player_step p do_stop = stop p
player_step p (do_on_finish callback) = on_finish callback p
player_step p do_begin = begin_frame p
player_step p (do_end ok) = end_frame ok p

unfoldable pub player_run : Player → List PlayerOp → Player
player_run p [] = p
player_run p (op ∷ ops) = player_run (player_step p op) ops

unfoldable pub holds : ℕ → List ℕ → Bool
holds x [] = false
holds x (y ∷ ys) = (y == x) || holds x ys

-- The source is closed, or the active one.
abbrev pub Kept : ℕ → Player → Type 0
Kept x p = (holds x p.closed ≡ true) ⊎ (p.src ≡ some x)

Kept-close_old :
    (x : ℕ) (src : Option ℕ) (closed : List ℕ)
    → (holds x closed ≡ true) ⊎ (src ≡ some x)
    → holds x (close_old src closed) ≡ true
unfolding holds
Kept-close_old x none closed k = ground (arith, k)
Kept-close_old x (some y) closed k = ground (arith, k)

player_step-Kept : (x : ℕ) (p : Player) (op : PlayerOp) → Kept x p → Kept x (player_step p op)
unfolding player_step play pause resume stop on_finish begin_frame source_ended end_frame holds
player_step-Kept x p (do_play src) k = inl (Kept-close_old x p.src p.closed k)
player_step-Kept x p do_pause k = ground (arith, k)
player_step-Kept x p do_resume k = ground (arith, k)
player_step-Kept x p do_stop k = inl (Kept-close_old x p.src p.closed k)
player_step-Kept x p (do_on_finish callback) k = k
player_step-Kept x p do_begin k = ground (arith, k)
player_step-Kept x p (do_end ok) k = ground (arith, k)

player_run-Kept : (x : ℕ) (p : Player) (ops : List PlayerOp) → Kept x p → Kept x (player_run p ops)
unfolding player_run
player_run-Kept x p [] k = k
player_run-Kept x p (op ∷ ops) k =
    player_run-Kept x (player_step p op) ops (player_step-Kept x p op k)

-- Whatever calls follow, and between whichever parts of nextFrame they come, a source that was
-- given to Play is the active one or closed.
pub source-Kept :
    (x : ℕ) (p : Player) (ops : List PlayerOp) → Kept x (player_run p (do_play (some x) ∷ ops))
unfolding player_run player_step play
source-Kept x p ops = player_run-Kept x (play (some x) p) ops (inr refl)
