-- ===== src/Media/Video/Stride.antt =====
-- How long an access unit lasts.
use meowcaller.Base.{ℕ, ◌+◌, ◌*◌, ◌%◌, ◌≤◌, ◌<◌, arith, IsU32}
use meowcaller.Media.Video.{
  Duration, nanoseconds, negative, video_rtp_duration_samples, seconds_u32,
}

seconds_u32-IsU32 : (x : ℕ) → IsU32 (seconds_u32 x)
unfolding seconds_u32
seconds_u32-IsU32 x = ground arith

pub video_rtp_duration_samples-bounds :
    (d : Duration) → (0 < video_rtp_duration_samples d) × IsU32 (video_rtp_duration_samples d)
unfolding video_rtp_duration_samples
video_rtp_duration_samples-bounds (negative n) = (omega arith, omega arith)
video_rtp_duration_samples-bounds (nanoseconds n) =
    ground (arith, seconds_u32-IsU32 ((n * 90000 + 500000000) % 18446744073709551616))

-- For a duration from 11112 ns to less than 40000 s, videoRtpDurationSamples is the count of
-- ticks of the 90 kHz clock that is nearest to it.
pub video_rtp_duration_samples-nearest :
    (n : ℕ)
    → 11112 ≤ n
    → n < 40000000000000
    → let s = video_rtp_duration_samples (nanoseconds n) in
      (n * 90000 ≤ s * 1000000000 + 500000000) × (s * 1000000000 ≤ n * 90000 + 500000000)
unfolding video_rtp_duration_samples seconds_u32
video_rtp_duration_samples-nearest n lo hi = ground arith
