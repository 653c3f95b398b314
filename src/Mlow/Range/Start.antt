-- ===== src/Mlow/Range/Start.antt =====
-- A new decoder and a new encoder are at the same place of any stream.
use meowcaller.Base.{
  ℕ, suc, ◌/◌, ◌≤◌, ◌≡◌, refl, ap, true, [], ◌∷◌, arith, ltb, leb, lt→ltb, length, Bytes, IsBytes,
  sub32,
}
use meowcaller.Mlow.Range.Decoder.{
  RangeDecoder, Decoded, blank, read_byte, shift_in, normalize_on, normalize, first_byte_in,
  new_range_decoder, ec_code_top, ec_code_bot,
}
use meowcaller.Mlow.Range.Encoder.{new_range_encoder}
use meowcaller.Mlow.Range.Digits.{prefix, put_digits}
use meowcaller.Mlow.Range.Carry.{digits, code, with_rem, count_rem}
use meowcaller.Mlow.Range.Interval.{IsLive, Room, low}
use meowcaller.Mlow.Range.Step.{IsReady}
use meowcaller.Mlow.Range.Sync.{SyncAt, Sync, SyncAt-shift}

pub new_range_encoder-IsReady : (size : ℕ) → IsReady (new_range_encoder size)
unfolding IsReady IsLive Room new_range_encoder
new_range_encoder-IsReady size = omega arith

-- One round of the loop, from a known range.
one_round :
    (buf : Bytes) (n k rng : ℕ) (d : RangeDecoder)
    → rng ≤ ec_code_bot
    → SyncAt buf k 0 rng d
    → normalize_on (suc n) d ≡ normalize_on n (shift_in d)
unfolding SyncAt normalize_on
one_round buf n k rng d small sync =
    let e : leb d.rng ec_code_bot ≡ true = ground (arith, sync.1) in rw e refl

no_round : (d : RangeDecoder) → normalize_on 0 d ≡ d
unfolding normalize_on
no_round d = refl

SyncAt-normalize :
    (buf : Bytes) (d : RangeDecoder)
    → IsBytes buf
    → SyncAt buf 0 0 128 d
    → SyncAt buf 3 0 ec_code_top (normalize d)
unfolding normalize
SyncAt-normalize buf d bytes s0 =
    let s1 = SyncAt-shift buf 0 0 128 d bytes (omega arith) (omega arith) s0 in
    let s2 = SyncAt-shift buf 1 0 32768 (shift_in d) bytes (omega arith) (omega arith) s1 in
    let s3 =
      SyncAt-shift buf 2 0 8388608 (shift_in (shift_in d)) bytes (omega arith) (omega arith) s2 in
    rw
      (
        one_round buf 2 0 128 d (omega arith) s0,
        one_round buf 1 1 32768 (shift_in d) (omega arith) s1,
        one_round buf 0 2 8388608 (shift_in (shift_in d)) (omega arith) s2,
        no_round (shift_in (shift_in (shift_in d))),
      )
      s3

first_read :
    (x : ℕ) (xs : Bytes)
    → read_byte (blank (x ∷ xs))
      ≡ record { value = x; coder = record (blank (x ∷ xs)) { offs = 1 } }
unfolding read_byte
first_read x xs =
    let some_byte : ltb 0 (suc (length xs)) ≡ true = lt→ltb _ _ (omega arith) in rw some_byte refl

no_read : read_byte (blank []) ≡ record { value = 0; coder = blank [] }
unfolding read_byte
no_read = refl

first_byte_in_lem :
    (buf : Bytes) {read : Decoded}
    → read_byte (blank buf) ≡ read
    → first_byte_in buf ≡ record read.coder { rem = read.value; val = sub32 127 (read.value / 2) }
unfolding first_byte_in
first_byte_in_lem buf e =
    ap (λ (r : Decoded). (record r.coder { rem = r.value; val = sub32 127 (r.value / 2) })) e

first_byte_in-SyncAt : (buf : Bytes) → IsBytes buf → SyncAt buf 0 0 128 (first_byte_in buf)
unfolding SyncAt prefix
first_byte_in-SyncAt [] bytes = rw (first_byte_in_lem [] no_read) (refl, refl, refl, refl, refl)
first_byte_in-SyncAt (x ∷ xs) (hx, bytes) =
    rw (first_byte_in_lem (x ∷ xs) (first_read x xs)) (refl, refl, refl, omega arith, omega arith)

pub new-Sync :
    (buf : Bytes) (size : ℕ)
    → IsBytes buf
    → Sync buf (new_range_encoder size) (new_range_decoder buf)
unfolding Sync new_range_encoder new_range_decoder digits low code with_rem count_rem put_digits
    prefix
new-Sync buf size bytes =
    SyncAt-normalize buf (first_byte_in buf) bytes (first_byte_in-SyncAt buf bytes)
