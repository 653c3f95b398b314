-- ===== src/Srtp/Roc/Tests.antt =====
-- The trackers around a wrap of the sequence number.
use meowcaller.Base.{max, ◌≡◌, refl, true, arith}
use meowcaller.Srtp.Roc.{RocTracker, RecvRocTracker, advance, guess_roc}
use meowcaller.Srtp.Roc.Exact.{
  seq_of, roc_of, SentUpTo, advance-SentUpTo, highest, IsTracking, guess_roc-exact,
}

wrap_back : (guess_roc (record { roc = 1; s_l = 3; initialized = true }) 65000).1 ≡ 0
unfolding guess_roc
wrap_back = refl

abbrev behind_wrap : RecvRocTracker
behind_wrap = record { roc = 1; s_l = 3; initialized = true }

behind_wrap-IsTracking : IsTracking behind_wrap
behind_wrap-IsTracking = record { started = refl; seq_bound = omega arith; roc_bound = omega arith }

guess_roc-exact_example :
    ((guess_roc behind_wrap (seq_of 65000)).1 ≡ roc_of 65000)
    × IsTracking (guess_roc behind_wrap (seq_of 65000)).0
    × (highest (guess_roc behind_wrap (seq_of 65000)).0 ≡ max (highest behind_wrap) 65000)
guess_roc-exact_example =
    guess_roc-exact behind_wrap 65000 behind_wrap-IsTracking (omega arith) (omega arith)
      (omega arith)

abbrev before_wrap : RocTracker
before_wrap = record { roc = 0; last_seq = 65535; initialized = true }

before_wrap-SentUpTo : SentUpTo before_wrap 65535
before_wrap-SentUpTo = record { started = refl; roc_is = refl; seq_is = refl }

advance-SentUpTo_example :
    ((advance before_wrap (seq_of 65540)).1 ≡ roc_of 65540)
    × SentUpTo (advance before_wrap (seq_of 65540)).0 65540
advance-SentUpTo_example =
    advance-SentUpTo before_wrap 65535 65540 before_wrap-SentUpTo (omega arith) (omega arith)
      (omega arith)
