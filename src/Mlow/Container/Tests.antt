-- ===== src/Mlow/Container/Tests.antt =====
-- Containers and other payloads.
use meowcaller.Base.{◌≡◌, refl, ◌↔◌, none, some, [], ◌∷◌, arith, Bytes}
use meowcaller.Mlow.Container.{split_container}
use meowcaller.Mlow.Container.Exact.{container_of, IsContent, split_container-exact}

abbrev two_frames : Bytes
two_frames = 0x92 ∷ 2 ∷ 1 ∷ 16 ∷ 48 ∷ 7 ∷ []

no_container : split_container (16 ∷ 2 ∷ 1 ∷ 16 ∷ []) ≡ none
unfolding split_container
no_container = refl

split_container-exact_example :
    (split_container two_frames ≡ some ((16 ∷ []) ∷ (48 ∷ 7 ∷ []) ∷ [])) ↔ (
      IsContent ((16 ∷ []) ∷ (48 ∷ 7 ∷ []) ∷ [])
      × (two_frames ≡ container_of ((16 ∷ []) ∷ (48 ∷ 7 ∷ []) ∷ [])))
split_container-exact_example =
    split_container-exact two_frames ((16 ∷ []) ∷ (48 ∷ 7 ∷ []) ∷ []) (omega arith)
