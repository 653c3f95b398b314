-- ===== src/Rtp/Reception.antt =====
-- The receive statistics of rtp/rtcp.go. The mutex makes each method one step. Integers are words:
-- `sub32` and `%` wrap as uint32 does, and the int32 `CumulativeLost` is its two's complement.
pub mod Highest
mod Tests
use meowcaller.Base.{
  ℕ, ◌+◌, ◌-◌, ◌*◌, ◌/◌, ◌%◌, min, Bool, true, false, not, ◌&&◌, ◌||◌, Option, none, some, ltb, leb,
  ◌==◌, if◌then◌else◌, u32, u64, sub16, sub32, shr,
}

-- `RtcpReceptionReport`
pub record ReceptionReport : Type 0 where
  pub ssrc : ℕ
  pub fraction_lost : ℕ
  pub cumulative_lost : ℕ
  pub extended_highest_sequence : ℕ
  pub jitter : ℕ
  pub last_sender_report : ℕ
  pub delay_since_last_sender_report : ℕ

-- `RtcpReceptionStats`
pub record ReceptionStats : Type 0 where
  pub ssrc : ℕ
  pub has_ssrc : Bool
  pub base_sequence : ℕ
  pub max_sequence : ℕ
  pub sequence_cycles : ℕ
  pub received : ℕ
  pub expected_prior : ℕ
  pub received_prior : ℕ
  pub transit : ℕ
  pub has_transit : Bool
  pub jitter_q4 : ℕ
  pub last_sender_report : ℕ
  pub last_sender_report_at_ms : ℕ
  pub has_sender_report : Bool

-- The zero value.
abbrev pub new_reception_stats : ReceptionStats
new_reception_stats = record {
  ssrc = 0;
  has_ssrc = false;
  base_sequence = 0;
  max_sequence = 0;
  sequence_cycles = 0;
  received = 0;
  expected_prior = 0;
  received_prior = 0;
  transit = 0;
  has_transit = false;
  jitter_q4 = 0;
  last_sender_report = 0;
  last_sender_report_at_ms = 0;
  has_sender_report = false;
}

-- The first branch of `Observe`: another stream starts.
unfoldable pub start_stream : ReceptionStats → ℕ → ℕ → ReceptionStats
start_stream s ssrc sequence = record s {
  sequence_cycles = 0;
  expected_prior = 0;
  received_prior = 0;
  has_transit = false;
  jitter_q4 = 0;
  last_sender_report = 0;
  has_sender_report = false;
  ssrc = ssrc;
  has_ssrc = true;
  base_sequence = sequence;
  max_sequence = sequence;
  received = 1;
}

-- The second branch: the known stream goes on.
unfoldable pub continue_stream : ReceptionStats → ℕ → ReceptionStats
continue_stream s sequence =
    let delta = sub16 sequence s.max_sequence in
    let forward = not (delta == 0) && ltb delta 0x8000 in
    record s {
      sequence_cycles =
          if forward && ltb sequence s.max_sequence
          then u32 (s.sequence_cycles + 65536)
          else s.sequence_cycles;
      max_sequence = if forward then sequence else s.max_sequence;
      received = u32 (s.received + 1);
    }

-- The jitter estimate behind it, in sixteenths; `distance` is the absolute value of an int32.
unfoldable pub update_jitter : ReceptionStats → ℕ → ℕ → ℕ → ReceptionStats
update_jitter s rtp_timestamp arrival_ms clock_rate =
    let arrival_rtp = u32 (u64 (arrival_ms * clock_rate) / 1000) in
    let transit = sub32 arrival_rtp rtp_timestamp in
    let delta = sub32 transit s.transit in
    let distance = if ltb delta 0x8000_0000 then delta else 0x1_0000_0000 - delta in
    let decay = shr (u64 (s.jitter_q4 + 8)) 4 in
    let jitter = u64 (s.jitter_q4 + distance) in
    record s {
      jitter_q4 = if s.has_transit then jitter - decay else s.jitter_q4;
      transit = transit;
      has_transit = true;
    }

-- `Observe`
unfoldable pub observe : ReceptionStats → ℕ → ℕ → ℕ → ℕ → ℕ → ReceptionStats
observe s ssrc sequence rtp_timestamp arrival_ms clock_rate =
    update_jitter
      (if not s.has_ssrc || not (s.ssrc == ssrc)
        then start_stream s ssrc sequence
        else continue_stream s sequence)
      rtp_timestamp arrival_ms clock_rate

-- `ObserveSenderReport`
unfoldable pub observe_sender_report : ReceptionStats → ℕ → ℕ → ℕ → ℕ → ReceptionStats
observe_sender_report s sender_ssrc ntp_seconds ntp_fraction arrival_ms =
    if not s.has_ssrc || not (s.ssrc == sender_ssrc) then s else record s {
      last_sender_report = ntp_seconds % 65536 * 65536 + shr ntp_fraction 16;
      last_sender_report_at_ms = arrival_ms;
      has_sender_report = true;
    }

-- The share lost since the last report, of 256.
unfoldable pub fraction_of : ℕ → ℕ → ℕ
fraction_of expected_interval received_interval =
    let lost = expected_interval - received_interval in
    if not (expected_interval == 0) && ltb 0 lost
    then min 255 (lost * 256 / expected_interval)
    else 0

-- The int64 `expected - received`, held in 24 bits with its sign.
unfoldable pub lost_word : ℕ → ℕ → ℕ
lost_word expected received =
    if leb received expected
    then min 0x7f_ffff (expected - received)
    else 0x1_0000_0000 - min 0x80_0000 (received - expected)

-- The delay since the last sender report, in units of 1/65536 s, held in 32 bits.
unfoldable pub delay_of : ReceptionStats → ℕ → ℕ
delay_of s now_ms =
    let elapsed =
      if ltb now_ms s.last_sender_report_at_ms then 0 else now_ms - s.last_sender_report_at_ms in
    if s.has_sender_report then min 0xffff_ffff (u64 (elapsed * 65536) / 1000) else 0

abbrev pub expected_of : ReceptionStats → ℕ
expected_of s = u32 (sub32 (s.sequence_cycles + s.max_sequence) s.base_sequence + 1)

-- `Report`
unfoldable pub report : ReceptionStats → ℕ → ReceptionStats × Option ReceptionReport
report s now_ms =
    let expected = expected_of s in
    if s.has_ssrc
    then (
      record s { expected_prior = expected; received_prior = s.received },
      some (record {
        ssrc = s.ssrc;
        fraction_lost =
            fraction_of (sub32 expected s.expected_prior) (sub32 s.received s.received_prior);
        cumulative_lost = lost_word expected s.received;
        extended_highest_sequence = s.sequence_cycles + s.max_sequence;
        jitter = min 0xffff_ffff (shr s.jitter_q4 4);
        last_sender_report = s.last_sender_report;
        delay_since_last_sender_report = delay_of s now_ms;
      }),
    )
    else (s, none)
