-- ===== src/Media/Reports/Tests.antt =====
-- A run of reports on sample keys.
use meowcaller.Base.{
  ℕ, zero, suc, ◌≡◌, refl, true, none, some, List, [], ◌∷◌, arith, replicate, IsBytes,
}
use meowcaller.Srtp.Sample.{sample_crypto}
use meowcaller.Srtp.E2e.{E2eSrtpKeys}
use meowcaller.Rtp.Reception.{ReceptionReport}
use meowcaller.Media.Reports.{
  MediaSrtcpSender, new_media_srtcp_sender, new_media_srtcp_receiver, build_whatsapp_rtcp_cname,
  hex_digits,
}
use meowcaller.Media.Reports.Delivery.{ReportInput, report_run, numbered, reports_arrive}

abbrev sample_report : ReceptionReport
sample_report = record {
  ssrc = 9;
  fraction_lost = 2;
  cumulative_lost = 3;
  extended_highest_sequence = 65540;
  jitter = 12;
  last_sender_report = 77;
  delay_since_last_sender_report = 5;
}

abbrev sample_inputs : List ReportInput
sample_inputs =
    record {
      stats = record { packets_sent = 1; octets_sent = 40; rtp_timestamp = 960 };
      now_ms = 1700000000123;
      reception = none;
    }
    ∷ record {
      stats = record { packets_sent = 84; octets_sent = 3000; rtp_timestamp = 80640 };
      now_ms = 1700000005123;
      reception = some sample_report;
    }
    ∷ []

entropy-IsBytes : (n : ℕ) → IsBytes (replicate n 171)
entropy-IsBytes zero = tt
entropy-IsBytes (suc n) = (omega arith, entropy-IsBytes n)

reports_arrive_example :
    (s : MediaSrtcpSender) × (keys : E2eSrtpKeys) × (new_media_srtcp_sender sample_crypto
        (replicate 32 4)
        (b'a' ∷ [])
        6
        true
        (replicate 12 171)
      ≡ some s)
    × (new_media_srtcp_receiver sample_crypto (replicate 32 4) (b'a' ∷ []) ≡ some keys)
    × (report_run sample_crypto keys s sample_inputs ≡ numbered s 1 sample_inputs)
reports_arrive_example =
    reports_arrive sample_crypto (replicate 32 4) (b'a' ∷ []) 6 true (replicate 12 171)
      sample_inputs (omega arith) (omega arith) (entropy-IsBytes 12) (tt, (omega arith, tt))
      (omega arith)

cname_sample :
    build_whatsapp_rtcp_cname (0 ∷ 0 ∷ 0 ∷ 0 ∷ 0 ∷ 0 ∷ 0x1a ∷ 0x2b ∷ 0x3c ∷ 0x4d ∷ 0x5e ∷ 0x6f ∷ [])
    ≡ b'1' ∷ b'a' ∷ b'2' ∷ b'b' ∷ b'3' ∷ b'@' ∷ b'p' ∷ b'j' ∷ b'c' ∷ b'4' ∷ b'd' ∷ b'5' ∷ b'e'
      ∷ b'6' ∷ b'.' ∷ b'o' ∷ b'r' ∷ b'g' ∷ []
unfolding build_whatsapp_rtcp_cname hex_digits
cname_sample = refl
