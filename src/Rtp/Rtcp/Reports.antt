-- ===== src/Rtp/Rtcp/Reports.antt =====
-- What the other side reads of a report.
use meowcaller.Base.{
  ℕ, zero, suc, ◌+◌, ◌≤◌, ◌≡◌, refl, ap, Bool, false, Option, none, some, [], ◌∷◌, ◌++◌, arith,
  length, drop, replicate, length-append, Bytes, IsU32,
}
use meowcaller.Rtp.Reception.{ReceptionReport}
use meowcaller.Rtp.Rtcp.{
  RtcpSenderStats, is_rtcp_packet, rtcp_payload_type, parse_rtcp_sender_ssrc,
  parse_sender_report_timing, sender_report_timing, ntp_sec, ntp_frac, sender_info,
  build_source_description, reception_block, build_report, feedback_requests, keyframe_from,
  rtcp_requests_keyframe,
}

tail_size :
    (r : ReceptionReport) (sdes : Bytes)
    → length (reception_block r ++ (replicate 24 0 ++ sdes)) ≡ 48 + length sdes
unfolding reception_block
tail_size r sdes = omega arith

-- A compound report of a 32-bit SSRC, with or without a reception block, is an RTCP packet of
-- type 200 of its sender, and ParseSenderReportTiming reads the sender's SSRC and the NTP time of
-- sending from it.
pub build_report-timing :
    (ssrc : ℕ) (stats : RtcpSenderStats) (now : ℕ) (cname : Bytes) (r : Option ReceptionReport)
    (extension : Bool)
    → IsU32 ssrc
    → (rtcp_payload_type (build_report ssrc stats now cname r extension) ≡ some 200)
      × (parse_rtcp_sender_ssrc (build_report ssrc stats now cname r extension) ≡ some ssrc)
      × (parse_sender_report_timing (build_report ssrc stats now cname r extension)
          ≡ some (ssrc, ntp_sec now, ntp_frac now))
unfolding build_report sender_info rtcp_payload_type is_rtcp_packet parse_rtcp_sender_ssrc
    parse_sender_report_timing sender_report_timing ntp_sec ntp_frac
build_report-timing ssrc stats now cname none extension h = ground arith
build_report-timing ssrc stats now cname (some r) extension h =
    ground (arith, tail_size r (build_source_description ssrc cname extension))

sdes_size :
    (ssrc : ℕ) (cname : Bytes) (extension : Bool)
    → length cname ≡ 18
    → length (build_source_description ssrc cname extension) ≡ 32
unfolding build_source_description
sdes_size ssrc cname extension h = omega (arith, length-append cname (0 ∷ 0 ∷ 0 ∷ 0 ∷ []))

drop_all : (n : ℕ) (xs : Bytes) → length xs ≤ n → drop n xs ≡ []
drop_all zero [] h = refl
drop_all zero (x ∷ xs) h = absurd (omega arith)
drop_all (suc n) [] h = refl
drop_all (suc n) (x ∷ xs) h = drop_all n xs (omega arith)

keyframe_from-end : (fuel video_ssrc : ℕ) → keyframe_from fuel [] video_ssrc ≡ false
unfolding keyframe_from
keyframe_from-end zero video_ssrc = refl
keyframe_from-end (suc fuel) video_ssrc = refl

-- The source description alone asks for nothing.
keyframe_from-sdes :
    (fuel ssrc : ℕ) (cname : Bytes) (extension : Bool) (video_ssrc : ℕ)
    → length cname ≡ 18
    → keyframe_from fuel (build_source_description ssrc cname extension) video_ssrc ≡ false
unfolding keyframe_from build_source_description feedback_requests
keyframe_from-sdes zero ssrc cname extension video_ssrc h = refl
keyframe_from-sdes (suc fuel) ssrc cname extension video_ssrc h =
    let rest = cname ++ (0 ∷ 0 ∷ 0 ∷ 0 ∷ []) in
    let size : length rest ≡ 22 = omega (arith, length-append cname (0 ∷ 0 ∷ 0 ∷ 0 ∷ [])) in
    let all : drop 22 rest ≡ [] = drop_all 22 rest (omega (arith, size)) in
    ground (
      arith,
      size,
      ap (λ xs. keyframe_from fuel xs video_ssrc) all,
      keyframe_from-end fuel video_ssrc,
    )

keyframe_from-report :
    (fuel ssrc : ℕ) (stats : RtcpSenderStats) (now : ℕ) (cname : Bytes) (r : Option ReceptionReport)
    (extension : Bool) (video_ssrc : ℕ)
    → length cname ≡ 18
    → keyframe_from fuel (build_report ssrc stats now cname r extension) video_ssrc ≡ false
unfolding build_report keyframe_from sender_info feedback_requests reception_block
keyframe_from-report zero ssrc stats now cname r extension video_ssrc h = refl
keyframe_from-report (suc fuel) ssrc stats now cname none extension video_ssrc h = ground (
  arith,
  sdes_size ssrc cname extension h,
  keyframe_from-sdes fuel ssrc cname extension video_ssrc h,
)
keyframe_from-report (suc fuel) ssrc stats now cname (some r) extension video_ssrc h = ground (
  arith,
  sdes_size ssrc cname extension h,
  keyframe_from-sdes fuel ssrc cname extension video_ssrc h,
)

-- RtcpRequestsKeyframe does not take a compound report with an 18-byte name, with or without a
-- reception block, for a request for a key frame of any stream.
pub build_report-keyframe :
    (ssrc : ℕ) (stats : RtcpSenderStats) (now : ℕ) (cname : Bytes) (r : Option ReceptionReport)
    (extension : Bool) (video_ssrc : ℕ)
    → length cname ≡ 18
    → rtcp_requests_keyframe (build_report ssrc stats now cname r extension) video_ssrc ≡ false
unfolding rtcp_requests_keyframe
build_report-keyframe ssrc stats now cname r extension video_ssrc h =
    keyframe_from-report (length (build_report ssrc stats now cname r extension)) ssrc stats now
      cname r extension video_ssrc h
