-- ===== src/Rtp/Rtcp/Tests.antt =====
-- A report with a reception block.
use meowcaller.Base.{◌≡◌, true, some, arith, replicate, Bytes}
use meowcaller.Rtp.Reception.{ReceptionReport}
use meowcaller.Rtp.Rtcp.{
  RtcpSenderStats, build_report, rtcp_payload_type, parse_rtcp_sender_ssrc,
  parse_sender_report_timing, ntp_sec, ntp_frac,
}
use meowcaller.Rtp.Rtcp.Reports.{build_report-timing}

abbrev sample_block : ReceptionReport
sample_block = record {
  ssrc = 6;
  fraction_lost = 12;
  cumulative_lost = 3;
  extended_highest_sequence = 70000;
  jitter = 8;
  last_sender_report = 9;
  delay_since_last_sender_report = 10;
}

abbrev sample_stats : RtcpSenderStats
sample_stats = record { packets_sent = 100; octets_sent = 5000; rtp_timestamp = 96000 }

abbrev sample_report : Bytes
sample_report = build_report 5 sample_stats 1500 (replicate 18 0x61) (some sample_block) true

build_report-timing_example :
    (rtcp_payload_type sample_report ≡ some 200)
    × (parse_rtcp_sender_ssrc sample_report ≡ some 5)
    × (parse_sender_report_timing sample_report ≡ some (5, ntp_sec 1500, ntp_frac 1500))
build_report-timing_example =
    build_report-timing 5 sample_stats 1500 (replicate 18 0x61) (some sample_block) true
      (omega arith)
