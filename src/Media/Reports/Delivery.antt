-- ===== src/Media/Reports/Delivery.antt =====
-- Reports from one side of a call to the other.
use meowcaller.Base.{
  ℕ, zero, suc, ◌+◌, ◌/◌, ◌%◌, ◌≤◌, ◌<◌, ◌≡◌, refl, ap, ◌∙◌, Bool, Option, none, some, List, [],
  ◌∷◌, ◌++◌, arith, ◌>>=◌, length, take, drop, replicate, All, All-drop, All-take, All-append,
  Bytes, IsU8, IsU32, IsBytes, byte_at, be32,
}
use mathlib.Core.Path.{ap₂}
use meowcaller.Srtp.Crypto.{Crypto}
use meowcaller.Srtp.E2e.{E2eSrtpKeys, derive_e2e_srtcp_keys, protect_srtcp, unprotect_srtcp}
use meowcaller.Srtp.E2e.Crypt.{IsKeys, derive_labels-IsKeys}
use meowcaller.Srtp.E2e.Srtcp.{unprotect-protect_srtcp}
use meowcaller.Rtp.Rtcp.{
  RtcpSenderStats, build_report, parse_rtcp_sender_ssrc, sender_info, reception_block,
  build_source_description,
}
use meowcaller.Rtp.Reception.{ReceptionReport}
use meowcaller.Util.Participant.{format_participant_id}
use meowcaller.Media.Reports.{
  MediaSrtcpSender, hex_digits, build_whatsapp_rtcp_cname, new_media_srtcp_sender,
  new_media_srtcp_receiver, sender_report, receive_report, next_index,
}

byte_at-IsU8 : (xs : Bytes) (n : ℕ) → IsBytes xs → IsU8 (byte_at xs n)
byte_at-IsU8 [] n b = omega arith
byte_at-IsU8 (x ∷ xs) zero (b, bs) = b
byte_at-IsU8 (x ∷ xs) (suc n) (b, bs) = byte_at-IsU8 xs n bs

hex_digits-IsBytes :
    (entropy : Bytes) (nibble count : ℕ)
    → IsBytes entropy
    → IsBytes (hex_digits entropy nibble count)
unfolding hex_digits
hex_digits-IsBytes entropy nibble zero b = tt
hex_digits-IsBytes entropy nibble (suc count) b = (
  ground (arith, byte_at-IsU8 entropy (6 + nibble / 2) b),
  hex_digits-IsBytes entropy (suc nibble) count b,
)

length-hex_digits :
    (entropy : Bytes) (nibble count : ℕ) → length (hex_digits entropy nibble count) ≡ count
unfolding hex_digits
length-hex_digits entropy nibble zero = refl
length-hex_digits entropy nibble (suc count) = ap suc (length-hex_digits entropy (suc nibble) count)

cname-IsBytes : (entropy : Bytes) → IsBytes entropy → IsBytes (build_whatsapp_rtcp_cname entropy)
unfolding build_whatsapp_rtcp_cname
cname-IsBytes entropy b =
    let hex = hex_digits entropy 0 11 in
    let ok = hex_digits-IsBytes entropy 0 11 b in
    All-append IsU8 (take 5 hex) _ (All-take IsU8 5 hex ok) (
      omega arith,
      (
        omega arith,
        (
          omega arith,
          All-append IsU8 (drop 5 hex) _ (All-drop IsU8 5 hex ok)
              (omega arith, (omega arith, (omega arith, (omega arith, tt)))),
        ),
      ),
    )

sender_info-IsBytes :
    (ssrc : ℕ) (stats : RtcpSenderStats) (now_ms : ℕ) → IsBytes (sender_info ssrc stats now_ms)
unfolding sender_info
sender_info-IsBytes ssrc stats now_ms = ground arith

source_description-IsBytes :
    (ssrc : ℕ) (cname : Bytes) (profile : Bool)
    → IsBytes cname
    → IsBytes (build_source_description ssrc cname profile)
unfolding build_source_description
source_description-IsBytes ssrc cname profile b =
    let zeros : IsBytes (0 ∷ 0 ∷ 0 ∷ 0 ∷ []) =
      (omega arith, (omega arith, (omega arith, (omega arith, tt)))) in
    ground (arith, All-append IsU8 cname (0 ∷ 0 ∷ 0 ∷ 0 ∷ []) b zeros)

reception_block-IsBytes : (r : ReceptionReport) → IsU8 r.fraction_lost → IsBytes (reception_block r)
unfolding reception_block
reception_block-IsBytes r b = ground arith

zeros-IsBytes : (n : ℕ) → IsBytes (replicate n 0)
zeros-IsBytes zero = tt
zeros-IsBytes (suc n) = (omega arith, zeros-IsBytes n)

-- The reception report of a report has an 8-bit fraction, if there is one.
abbrev pub IsReception : Option ReceptionReport → Type 0
IsReception none = Unit {0}
IsReception (some r) = IsU8 r.fraction_lost

build_report-IsBytes :
    (ssrc : ℕ) (stats : RtcpSenderStats) (now_ms : ℕ) (cname : Bytes)
    (report : Option ReceptionReport) (profile : Bool)
    → IsBytes cname
    → IsReception report
    → IsBytes (build_report ssrc stats now_ms cname report profile)
unfolding build_report
build_report-IsBytes ssrc stats now_ms cname none profile b r =
    let info = sender_info-IsBytes ssrc stats now_ms in
    let sdes = source_description-IsBytes ssrc cname profile b in
    (
      ground arith,
      (
        omega arith,
        (omega arith, (omega arith, All-append IsU8 (sender_info ssrc stats now_ms) _ info sdes)),
      ),
    )
build_report-IsBytes ssrc stats now_ms cname (some report) profile b r =
    let info = sender_info-IsBytes ssrc stats now_ms in
    let sdes = source_description-IsBytes ssrc cname profile b in
    (
      ground arith,
      (
        omega arith,
        (
          omega arith,
          (
            omega arith,
            All-append IsU8 (sender_info ssrc stats now_ms) _ info (
                All-append IsU8 (reception_block report) _ (reception_block-IsBytes report r)
                  (All-append IsU8 (replicate 24 0) _ (zeros-IsBytes 24) sdes)),
          ),
        ),
      ),
    )

build_report-long :
    (ssrc : ℕ) (stats : RtcpSenderStats) (now_ms : ℕ) (cname : Bytes)
    (report : Option ReceptionReport) (profile : Bool)
    → 8 ≤ length (build_report ssrc stats now_ms cname report profile)
unfolding build_report sender_info
build_report-long ssrc stats now_ms cname none profile = omega arith
build_report-long ssrc stats now_ms cname (some report) profile = omega arith

-- What one report is made of.
pub record ReportInput : Type 0 where
  pub stats : RtcpSenderStats
  pub now_ms : ℕ
  pub reception : Option ReceptionReport

abbrev pub IsReportInput : ReportInput → Type 0
IsReportInput x = IsReception x.reception

-- The report as a sender builds it.
abbrev pub plain_report : MediaSrtcpSender → ReportInput → Bytes
plain_report s x = build_report s.ssrc x.stats x.now_ms s.cname x.reception s.profile

-- What is read of reports sent from an index on.
unfoldable pub numbered : MediaSrtcpSender → ℕ → List ReportInput → List (Option (Bytes × ℕ))
numbered s index [] = []
numbered s index (x ∷ xs) = some (plain_report s x, index) ∷ numbered s (suc index) xs

numbered-index :
    (s : MediaSrtcpSender) (n index : ℕ) (xs : List ReportInput)
    → numbered (record s { index = n }) index xs ≡ numbered s index xs
unfolding numbered
numbered-index s n index [] = refl
numbered-index s n index (x ∷ xs) =
    ap (◌∷◌ (some (plain_report s x, index))) (numbered-index s n (suc index) xs)

module _ (c : Crypto) where
  -- Reports sent one after the other, and each received; an error of the sender is `none`.
  unfoldable pub report_run :
      E2eSrtpKeys → MediaSrtcpSender → List ReportInput → List (Option (Bytes × ℕ))
  report_run keys s [] = []
  report_run keys s (x ∷ xs) =
      let (s', packet) = sender_report c s x.stats x.now_ms x.reception in
      (packet >>= receive_report c keys) ∷ report_run keys s' xs

  -- The sender's SSRC stays readable.
  parse-protect_srtcp :
      (keys : E2eSrtpKeys) (ssrc index a x y z local_ssrc : ℕ) (rest packet : Bytes)
      → a / 64 % 4 ≡ 2
      → IsU32 local_ssrc
      → protect_srtcp c keys ssrc index (a ∷ x ∷ y ∷ z ∷ (be32 local_ssrc ++ rest)) ≡ some packet
      → parse_rtcp_sender_ssrc packet ≡ some local_ssrc
  unfolding parse_rtcp_sender_ssrc protect_srtcp
  parse-protect_srtcp keys ssrc index a x y z local_ssrc rest packet v b e = ground (arith, e)

  parse-report :
      (keys : E2eSrtpKeys) (ssrc index : ℕ) (stats : RtcpSenderStats) (now_ms : ℕ) (cname : Bytes)
      (report : Option ReceptionReport) (profile : Bool) (packet : Bytes)
      → IsU32 ssrc
      → protect_srtcp c keys ssrc index (build_report ssrc stats now_ms cname report profile)
        ≡ some packet
      → parse_rtcp_sender_ssrc packet ≡ some ssrc
  unfolding build_report sender_info
  parse-report keys ssrc index stats now_ms cname none profile packet b e =
      parse-protect_srtcp keys ssrc index _ _ _ _ ssrc _ packet (ground arith) b e
  parse-report keys ssrc index stats now_ms cname (some report) profile packet b e =
      parse-protect_srtcp keys ssrc index _ _ _ _ ssrc _ packet (ground arith) b e

  report_run-numbered :
      (s : MediaSrtcpSender) (xs : List ReportInput)
      → IsKeys c s.keys
      → IsU32 s.ssrc
      → IsBytes s.cname
      → All IsReportInput xs
      → s.index + length xs ≤ 2147483648
      → report_run s.keys s xs ≡ numbered s s.index xs
  unfolding report_run numbered sender_report receive_report
  report_run-numbered s [] k b n v room = refl
  report_run-numbered s (x ∷ xs) k b n (here, v) room =
      let plain = plain_report s x in
      let bytes =
        build_report-IsBytes s.ssrc x.stats x.now_ms s.cname x.reception s.profile n here in
      let long = build_report-long s.ssrc x.stats x.now_ms s.cname x.reception s.profile in
      let (packet, made, back, _) =
        unprotect-protect_srtcp c s.keys k s.ssrc s.index plain bytes long (omega arith) in
      let ssrc =
        parse-report s.keys s.ssrc s.index x.stats x.now_ms s.cname x.reception s.profile packet b
          made in
      let index : (s.index + 1) % 4294967296 ≡ suc s.index = omega arith in
      let rest = report_run-numbered (record s { index = suc s.index }) xs k b n v (omega arith) in
      let received : receive_report c s.keys packet ≡ some (plain, s.index) =
        ap (λ o. o >>= λ ssrc. unprotect_srtcp c s.keys ssrc packet) ssrc ∙ back in
      ap (λ o. (o >>= receive_report c s.keys) ∷ report_run s.keys (next_index c s o) xs) made
      ∙ ap₂ ◌∷◌ received (
          ap (λ n. report_run s.keys (record s { index = n }) xs) index
          ∙ rest
          ∙ numbered-index s (suc s.index) (suc s.index) xs)

  -- From one call key of at least 32 bytes and one participant id both ends of SRTCP are made,
  -- and each of fewer than 2^31 reports of a 32-bit SSRC, whose reception block, if any, has an
  -- 8-bit fraction, is protected without an error and read by the other side as it was built,
  -- with the indices 1, 2, 3 and so on.
  pub reports_arrive :
      (call_key lid : Bytes) (ssrc : ℕ) (profile : Bool) (entropy : Bytes) (xs : List ReportInput)
      → 32 ≤ length call_key
      → IsU32 ssrc
      → IsBytes entropy
      → All IsReportInput xs
      → length xs < 2147483648
      → (s : MediaSrtcpSender) × (keys : E2eSrtpKeys) × (new_media_srtcp_sender c call_key lid ssrc
            profile entropy
          ≡ some s)
        × (new_media_srtcp_receiver c call_key lid ≡ some keys)
        × (report_run keys s xs ≡ numbered s 1 xs)
  unfolding new_media_srtcp_sender new_media_srtcp_receiver derive_e2e_srtcp_keys
  reports_arrive call_key lid ssrc profile entropy xs long b e v few =
      let (keys, made, ok) =
        derive_labels-IsKeys c 3 4 5 call_key (format_participant_id lid) long in
      let s : MediaSrtcpSender = record {
        keys = keys;
        ssrc = ssrc;
        cname = build_whatsapp_rtcp_cname entropy;
        profile = profile;
        index = 1;
      } in
      (
        s,
        keys,
        rw made refl,
        made,
        report_run-numbered s xs ok b (cname-IsBytes entropy e) v (omega arith),
      )
