-- ===== src/Srtp/Roc/Exact.antt =====
-- The trackers against the packet index of RFC 3711, ROC * 65536 + sequence number.
use meowcaller.Base.{ℕ, ◌+◌, ◌*◌, ◌/◌, ◌%◌, ◌≤◌, ◌<◌, max, true, ◌≡◌, arith}
use meowcaller.Srtp.Roc.{RocTracker, RecvRocTracker, advance, guess_roc}

-- Packet indices have 48 bits.
abbrev pub IsIndex : ℕ → Type 0
IsIndex i = i < 281474976710656

abbrev pub seq_of : ℕ → ℕ
seq_of i = i % 65536

abbrev pub roc_of : ℕ → ℕ
roc_of i = i / 65536

-- The send tracker has last been given the packet index `i`.
pub record SentUpTo (t : RocTracker) (i : ℕ) : Type 0 where
  pub started : t.initialized ≡ true
  pub roc_is : t.roc ≡ roc_of i
  pub seq_is : t.last_seq ≡ seq_of i

-- After the packet index i, Advance gives i again or any later 48-bit index less than 32768 ahead
-- its own rollover counter and has then sent up to it.
pub advance-SentUpTo :
    (t : RocTracker) (i j : ℕ)
    → SentUpTo t i
    → IsIndex j
    → i ≤ j
    → j < i + 32768
    → ((advance t (seq_of j)).1 ≡ roc_of j) × SentUpTo (advance t (seq_of j)).0 j
unfolding advance
advance-SentUpTo t i j s hj lo hi = ground arith

-- The highest index that the receive tracker has seen.
abbrev pub highest : RecvRocTracker → ℕ
highest t = t.roc * 65536 + t.s_l

pub record IsTracking (t : RecvRocTracker) : Type 0 where
  pub started : t.initialized ≡ true
  pub seq_bound : t.s_l < 65536
  pub roc_bound : t.roc < 4294967296

-- With a started tracker, for a 48-bit packet index less than 32768 from the highest index seen,
-- on either side, GuessRoc returns the index's own rollover counter and keeps the highest index,
-- across any wrap of the sequence number.
pub guess_roc-exact :
    (t : RecvRocTracker) (i : ℕ)
    → IsTracking t
    → IsIndex i
    → i < highest t + 32768
    → highest t < i + 32768
    → ((guess_roc t (seq_of i)).1 ≡ roc_of i)
      × IsTracking (guess_roc t (seq_of i)).0
      × (highest (guess_roc t (seq_of i)).0 ≡ max (highest t) i)
unfolding guess_roc
guess_roc-exact t i h hi lo up = ground arith
