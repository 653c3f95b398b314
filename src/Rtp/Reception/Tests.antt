-- ===== src/Rtp/Reception/Tests.antt =====
-- A stream with a wrap, a loss and a late packet.
use meowcaller.Base.{ℕ, ◌+◌, ◌-◌, ◌*◌, ◌≤◌, ◌≡◌, some, List, [], ◌∷◌, arith}
use meowcaller.Rtp.Reception.{ReceptionReport, new_reception_stats, report, lost_word}
use meowcaller.Rtp.Reception.Highest.{Packet, observe_all, IsNear, highest_of, report-observe_all}

abbrev at_index : ℕ → Packet
at_index i = record { index = i; timestamp = i * 960; arrival_ms = i * 60 }

abbrev later_packets : List Packet
later_packets = at_index 65536 ∷ at_index 65535 ∷ at_index 65539 ∷ []

later_packets-IsNear : IsNear 65534 later_packets
later_packets-IsNear = unfold IsNear in (omega arith)

report-observe_all_example :
    (r : ReceptionReport) × ((report
        (observe_all 5 16000 new_reception_stats (at_index 65534 ∷ later_packets))
        4000000).1
      ≡ some r)
    × (r.ssrc ≡ 5)
    × (r.extended_highest_sequence ≡ highest_of 65534 later_packets)
    × (r.cumulative_lost ≡ lost_word (highest_of 65534 later_packets + 1 - 65534) 4)
    × (r.fraction_lost ≤ 255)
report-observe_all_example =
    report-observe_all 5 16000 4000000 (at_index 65534) later_packets (omega arith)
      later_packets-IsNear (unfold highest_of in omega arith) (omega arith)
