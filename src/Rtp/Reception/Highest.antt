-- ===== src/Rtp/Reception/Highest.antt =====
-- What a report says of a stream, against the packets that came.
use meowcaller.Base.{
  ℕ, suc, ◌+◌, ◌-◌, ◌%◌, ◌≤◌, ◌<◌, max, ◌≡◌, refl, sym, true, some, List, [], ◌∷◌, arith, ◌==◌,
  length,
}
use meowcaller.Rtp.Reception.{
  ReceptionReport, ReceptionStats, new_reception_stats, start_stream, continue_stream,
  update_jitter, observe, expected_of, lost_word, fraction_of, report,
}

-- A packet: its place in the stream, RTP timestamp and time of arrival. The sequence number on the
-- wire is the place modulo 2 ^ 16.
pub record Packet : Type 0 where
  pub index : ℕ
  pub timestamp : ℕ
  pub arrival_ms : ℕ

unfoldable pub observe_packet : ℕ → ℕ → ReceptionStats → Packet → ReceptionStats
observe_packet ssrc rate s p = observe s ssrc (p.index % 65536) p.timestamp p.arrival_ms rate

unfoldable pub observe_all : ℕ → ℕ → ReceptionStats → List Packet → ReceptionStats
observe_all ssrc rate s [] = s
observe_all ssrc rate s (p ∷ ps) = observe_all ssrc rate (observe_packet ssrc rate s p) ps

unfoldable pub highest_of : ℕ → List Packet → ℕ
highest_of h [] = h
highest_of h (p ∷ ps) = highest_of (max h p.index) ps

highest_of-ge : (ps : List Packet) (h : ℕ) → h ≤ highest_of h ps
unfolding highest_of
highest_of-ge [] h = omega arith
highest_of-ge (p ∷ ps) h = omega (arith, highest_of-ge ps (max h p.index))

-- Each packet is less than 32768 places from the highest one before it.
unfoldable pub IsNear : ℕ → List Packet → Type 0
IsNear h [] = Unit {0}
IsNear h (p ∷ ps) = ((p.index < h + 32768) × (h < p.index + 32768)) × IsNear (max h p.index) ps

-- The statistics of a stream with a first place, a highest place and a count of packets.
pub record Counts (s : ReceptionStats) (ssrc first h n : ℕ) : Type 0 where
  pub known : s.has_ssrc ≡ true
  pub same_ssrc : s.ssrc ≡ ssrc
  pub base_is : s.base_sequence ≡ first
  pub highest_is : s.sequence_cycles + s.max_sequence ≡ h
  pub max_is : s.max_sequence ≡ h % 65536
  pub count_is : s.received ≡ n

update_jitter-Counts :
    (s : ReceptionStats) (ssrc first h n t arrival rate : ℕ)
    → Counts s ssrc first h n
    → Counts (update_jitter s t arrival rate) ssrc first h n
unfolding update_jitter
update_jitter-Counts s ssrc first h n t arrival rate r = record {
  known = r.known;
  same_ssrc = r.same_ssrc;
  base_is = r.base_is;
  highest_is = r.highest_is;
  max_is = r.max_is;
  count_is = r.count_is;
}

continue_stream-Counts :
    (s : ReceptionStats) (ssrc first h n i : ℕ)
    → Counts s ssrc first h n
    → i < h + 32768
    → h < i + 32768
    → max h i < 4294967296
    → n < 4294967295
    → Counts (continue_stream s (i % 65536)) ssrc first (max h i) (suc n)
unfolding continue_stream
continue_stream-Counts s ssrc first h n i r lo hi b m = record {
  known = r.known;
  same_ssrc = r.same_ssrc;
  base_is = r.base_is;
  highest_is = ground (arith, r.highest_is, r.max_is);
  max_is = ground (arith, r.highest_is, r.max_is);
  count_is = omega (arith, r.count_is);
}

observe_known :
    (s : ReceptionStats) (ssrc rate : ℕ) (p : Packet)
    → s.has_ssrc ≡ true
    → s.ssrc ≡ ssrc
    → observe_packet ssrc rate s p
      ≡ update_jitter (continue_stream s (p.index % 65536)) p.timestamp p.arrival_ms rate
unfolding observe_packet observe
observe_known s ssrc rate p h e =
    let same : (s.ssrc == ssrc) ≡ true = ground (arith, e) in simp (h, same)

observe_all-Counts :
    (ps : List Packet) (s : ReceptionStats) (ssrc first h n rate : ℕ)
    → Counts s ssrc first h n
    → IsNear h ps
    → highest_of h ps < 4294967296
    → n + length ps < 4294967296
    → Counts (observe_all ssrc rate s ps) ssrc first (highest_of h ps) (n + length ps)
unfolding observe_all highest_of IsNear
observe_all-Counts [] s ssrc first h n rate r near b m = let z : n + 0 ≡ n = omega arith in rw z r
observe_all-Counts (p ∷ ps) s ssrc first h n rate r ((lo, hi), near) b m =
    let moved : suc n + length ps ≡ n + suc (length ps) = omega arith in
    let top : max h p.index ≤ highest_of (max h p.index) ps = highest_of-ge ps (max h p.index) in
    let next : Counts (observe_packet ssrc rate s p) ssrc first (max h p.index) (suc n) =
      rw (observe_known s ssrc rate p r.known r.same_ssrc) (
        update_jitter-Counts (continue_stream s (p.index % 65536)) ssrc first (max h p.index)
          (suc n) p.timestamp p.arrival_ms rate
          (continue_stream-Counts s ssrc first h n p.index r lo hi (omega arith) (omega arith))) in
    rw (sym moved) (
      observe_all-Counts ps (observe_packet ssrc rate s p) ssrc first (max h p.index) (suc n) rate
        next near b (omega arith))

observe_fresh :
    (ssrc rate : ℕ) (p : Packet)
    → observe_packet ssrc rate new_reception_stats p
      ≡ update_jitter
          (start_stream new_reception_stats ssrc (p.index % 65536))
          p.timestamp
          p.arrival_ms
          rate
unfolding observe_packet observe
observe_fresh ssrc rate p = refl

start_stream-Counts :
    (s : ReceptionStats) (ssrc i : ℕ)
    → i < 65536
    → Counts (start_stream s ssrc (i % 65536)) ssrc i i 1
unfolding start_stream
start_stream-Counts s ssrc i b = record {
  known = refl;
  same_ssrc = refl;
  base_is = omega arith;
  highest_is = omega arith;
  max_is = refl;
  count_is = refl;
}

report-Counts :
    (s : ReceptionStats) (ssrc first h n now : ℕ)
    → Counts s ssrc first h n
    → first ≤ h
    → first < 65536
    → h < 4294967295
    → (r : ReceptionReport) × ((report s now).1 ≡ some r)
      × (r.ssrc ≡ ssrc)
      × (r.extended_highest_sequence ≡ h)
      × (r.cumulative_lost ≡ lost_word (h + 1 - first) n)
      × (r.fraction_lost ≤ 255)
unfolding report fraction_of
report-Counts s ssrc first h n now r le f b =
    let expected : expected_of s ≡ h + 1 - first = omega (arith, r.highest_is, r.base_is) in
    simp r.known (_, refl, r.same_ssrc, r.highest_is, rw (expected, r.count_is) refl, ground arith)

-- For a stream whose first place is below 65536, whose packets are each less than 32768 places
-- from the highest one before, and whose places and count stay below 2^32 - 1 and 2^32, Report
-- names the stream, and gives as extended highest sequence number the highest place that came, as
-- cumulative loss the places from first to highest less the packets counted, in 24 bits, and a
-- fraction of at most 255.
pub report-observe_all :
    (ssrc rate now : ℕ) (p : Packet) (ps : List Packet)
    → p.index < 65536
    → IsNear p.index ps
    → highest_of p.index ps < 4294967295
    → suc (length ps) < 4294967296
    → (r : ReceptionReport) × ((report (observe_all ssrc rate new_reception_stats (p ∷ ps)) now).1
        ≡ some r)
      × (r.ssrc ≡ ssrc)
      × (r.extended_highest_sequence ≡ highest_of p.index ps)
      × (r.cumulative_lost ≡ lost_word (highest_of p.index ps + 1 - p.index) (suc (length ps)))
      × (r.fraction_lost ≤ 255)
unfolding observe_all
report-observe_all ssrc rate now p ps f near b m =
    let started : Counts (observe_packet ssrc rate new_reception_stats p) ssrc p.index p.index 1 =
      rw (observe_fresh ssrc rate p) (
        update_jitter-Counts (start_stream new_reception_stats ssrc (p.index % 65536)) ssrc p.index
          p.index 1 p.timestamp p.arrival_ms rate
          (start_stream-Counts new_reception_stats ssrc p.index f)) in
    let s = observe_all ssrc rate (observe_packet ssrc rate new_reception_stats p) ps in
    let one : 1 + length ps ≡ suc (length ps) = omega arith in
    report-Counts s ssrc p.index (highest_of p.index ps) (suc (length ps)) now
      (rw one at (
        observe_all-Counts ps (observe_packet ssrc rate new_reception_stats p) ssrc p.index p.index
          1 rate started near (omega arith) (omega arith)))
      (highest_of-ge ps p.index) f b
