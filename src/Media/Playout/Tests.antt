-- ===== src/Media/Playout/Tests.antt =====
-- Frames of four samples.
use meowcaller.Base.{true, false, none, some, List, [], ◌∷◌}
use meowcaller.Media.Playout.Samples.{PushInput}

abbrev sample_pushes : List PushInput
sample_pushes =
    record { timestamp = 4294966816; frame = 1 ∷ 2 ∷ 3 ∷ 4 ∷ []; sink = none }
    ∷ record { timestamp = 480; frame = 5 ∷ 6 ∷ 7 ∷ 8 ∷ []; sink = none }
    ∷ record { timestamp = 1440; frame = []; sink = some (λ k. true) }
    ∷ record { timestamp = 2400; frame = []; sink = some (λ k. false) }
    ∷ []
