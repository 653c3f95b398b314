-- ===== src/Media/Player/Tests.antt =====
-- A source that is replaced while it is read.
use meowcaller.Base.{◌≡◌, refl, false, some, [], ◌∷◌}
use meowcaller.Media.Player.{new_player, play, begin_frame, source_ended, end_frame}
use meowcaller.Media.Player.Sources.{
  do_play, do_begin, do_end, player_step, player_run, Kept, source-Kept,
}

source-Kept_example :
    Kept 1
      (player_run new_player (do_play (some 1) ∷ do_begin ∷ do_play (some 2) ∷ do_end false ∷ []))
source-Kept_example = source-Kept 1 new_player (do_begin ∷ do_play (some 2) ∷ do_end false ∷ [])

-- The first source is then closed twice, and the second one plays on.
replaced_while_read :
    let p =
      player_run new_player (do_play (some 1) ∷ do_begin ∷ do_play (some 2) ∷ do_end false ∷ []) in
    (p.closed ≡ 1 ∷ 1 ∷ []) × (p.src ≡ some 2)
unfolding new_player player_run player_step play begin_frame end_frame source_ended
replaced_while_read = (refl, refl)
