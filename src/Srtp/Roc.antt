-- ===== src/Srtp/Roc.antt =====
-- The rollover counters of srtp/e2e.go: `RocTracker` on the send side, `RecvRocTracker` on the
-- receive side. A rollover counter (ROC) is a uint32, a sequence number a uint16. The differences
-- that the code takes in int32 are compared here by addition on both sides.
pub mod Exact
mod Tests
use meowcaller.Base.{
  ℕ, ◌+◌, ◌-◌, ◌*◌, Bool, true, false, List, [], ◌∷◌, ltb, ◌==◌, if◌then◌else◌, u32, sub32,
}

pub record RocTracker : Type 0 where
  pub roc : ℕ
  pub last_seq : ℕ
  pub initialized : Bool

abbrev pub new_roc_tracker : RocTracker
new_roc_tracker = record { roc = 0; last_seq = 0; initialized = false }

-- `Advance`: the new state, and the ROC of the packet.
unfoldable pub advance : RocTracker → ℕ → RocTracker × ℕ
advance t seq =
    let roc = if ltb (seq + 32768) t.last_seq then u32 (t.roc + 1) else t.roc in
    if t.initialized
    then (record t { roc = roc; last_seq = seq }, roc)
    else (record t { last_seq = seq; initialized = true }, t.roc)

pub record RecvRocTracker : Type 0 where
  pub roc : ℕ
  pub s_l : ℕ
  pub initialized : Bool

abbrev pub new_recv_roc_tracker : RecvRocTracker
new_recv_roc_tracker = record { roc = 0; s_l = 0; initialized = false }

-- The candidate `v` of `GuessRoc`.
candidate : RecvRocTracker → ℕ → ℕ
candidate t seq =
    if ltb t.s_l 0x8000
    then (if ltb (t.s_l + 0x8000) seq then sub32 t.roc 1 else t.roc)
    else if ltb (seq + 0x8000) t.s_l
    then u32 (t.roc + 1)
    else t.roc

-- The `switch v`.
fold_candidate : RecvRocTracker → ℕ → ℕ → RecvRocTracker
fold_candidate t seq v =
    if v == t.roc
    then (if ltb t.s_l seq then record t { s_l = seq } else t)
    else if v == u32 (t.roc + 1)
    then record t { roc = v; s_l = seq }
    else t

-- `GuessRoc`: the new state, and the guessed ROC.
unfoldable pub guess_roc : RecvRocTracker → ℕ → RecvRocTracker × ℕ
unfolding candidate fold_candidate
guess_roc t seq =
    if t.initialized
    then (fold_candidate t seq (candidate t seq), candidate t seq)
    else (record t { s_l = seq; initialized = true }, t.roc)
