-- ===== src/Mlow/Red/Tests.antt =====
-- Packets with and without redundant frames.
use meowcaller.Base.{◌≡◌, refl, inl, inr, List, [], ◌∷◌, arith}
use meowcaller.Mlow.Red.{depack_split_red, read_headers, redundant_too_short}
use meowcaller.Mlow.Red.RoundTrip.{Redundant, red_packet, red_frames, depack-red_packet}

-- A block that leaves no byte for the main frame is refused.
overlong_block : depack_split_red (0x85 ∷ 2 ∷ 1 ∷ 9 ∷ []) ≡ inl redundant_too_short
overlong_block = unfold depack_split_red read_headers in refl

abbrev two_redundant : List Redundant
two_redundant = (2, 7 ∷ 8 ∷ []) ∷ (1, []) ∷ []

depack-red_packet_example :
    depack_split_red (red_packet two_redundant 0 (5 ∷ 6 ∷ []))
    ≡ inr (red_frames two_redundant 0 (5 ∷ 6 ∷ []))
depack-red_packet_example =
    depack-red_packet two_redundant 0 (5 ∷ 6 ∷ []) (omega arith) (omega arith) (omega arith)
