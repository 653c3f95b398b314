-- ===== src/Mlow/Range/Sync.antt =====
-- A decoder keeps up with the encoder whose stream it reads.
use meowcaller.Base.{
  ℕ, zero, suc, ◌+◌, ◌-◌, ◌*◌, ◌/◌, ◌%◌, ◌≤◌, ◌<◌, min, ◌≡◌, sym, ap, ◌∙◌, inl, inr, false, arith,
  ltb, leb, leb→le, Bool-cases, length, Bytes, IsBytes, u32, byte_at, byte_at-IsU8,
}
use meowcaller.Mlow.Range.Decoder
use meowcaller.Mlow.Range.Decoder.{
  RangeDecoder, Decoded, read_byte, shift_in, ec_code_top, ec_code_bot,
}
use meowcaller.Mlow.Range.Encoder
use meowcaller.Mlow.Range.Encoder.{RangeEncoder, shift_out}
use meowcaller.Mlow.Range.Digits.{prefix, prefix_step, byte_at_past}
use meowcaller.Mlow.Range.Carry.{digits}
use meowcaller.Mlow.Range.Interval.{
  low, IsLive, seen, Holds, Shifted, shift_out-IsLive, shift_out-Shifted,
}
use meowcaller.Mlow.Range.Nested.{Normalized, normalize_on-Normalized, digits-shift_out}

-- The byte `k` is the last one that the decoder has read, and its value counts down from the end
-- of the interval of `rng` numbers from `lo` on.
unfoldable pub SyncAt : Bytes → (k lo rng : ℕ) → RangeDecoder → Type 0
SyncAt buf k lo rng d =
    (d.buf ≡ buf)
    × (d.rng ≡ rng)
    × (d.rem ≡ byte_at buf k)
    × (d.offs ≡ min (k + 1) (length buf))
    × (d.val + 1 + prefix buf (k + 1) / 2 ≡ lo + rng)

-- A decoder is four bytes in front of the encoder.
unfoldable pub Sync : Bytes → RangeEncoder → RangeDecoder → Type 0
Sync buf e d = SyncAt buf (digits e + 3) (low e) e.rng d

-- `readByte` past the end gives 0, as the buffer reads there.
read_byte_lem :
    (d : RangeDecoder) (n : ℕ)
    → d.offs ≡ min n (length d.buf)
    → ((read_byte d).value ≡ byte_at d.buf n)
      × ((read_byte d).coder.offs ≡ min (n + 1) (length d.buf))
unfolding read_byte
read_byte_lem d n h = elim (Bool-cases (ltb d.offs (length d.buf))) [
  | inl lt ↦ let e : d.offs ≡ n = ground arith in (rw lt (ap (byte_at d.buf) e), ground arith)
  | inr ge ↦ (rw ge (sym (byte_at_past n d.buf (ground arith))), ground arith)
]

shift_value :
    (val q rem b : ℕ)
    → val < ec_code_bot
    → rem < 256
    → b < 256
    → u32 (u32 (val * 256) + (255 - (rem * 256 + b) / 2 % 256)) % ec_code_top
        + 1
        + ((q * 256 + rem) * 256 + b) / 2
      ≡ (val + 1 + (q * 256 + rem) / 2) * 256
shift_value val q rem b hv hr hb = omega arith

read_byte-buf : (d : RangeDecoder) → (read_byte d).coder.buf ≡ d.buf
unfolding read_byte
read_byte-buf d = ground arith

pub SyncAt-shift :
    (buf : Bytes) (k lo rng : ℕ) (d : RangeDecoder)
    → IsBytes buf
    → rng ≤ ec_code_bot
    → lo ≤ prefix buf (k + 1) / 2
    → SyncAt buf k lo rng d
    → SyncAt buf (k + 1) (lo * 256) (rng * 256) (shift_in d)
unfolding SyncAt shift_in
SyncAt-shift buf k lo rng d bytes small inside (b, r, m, o, v) =
    let n = k + 1 in
    let read = read_byte_lem d n (rw b o) in
    let byte : (read_byte d).value ≡ byte_at buf n = read.0 ∙ ap (λ (t : Bytes). byte_at t n) b in
    let p1 : prefix buf n ≡ prefix buf k * 256 + d.rem =
      omega (arith, prefix_step buf n k (omega arith)) in
    let p2 : prefix buf (n + 1) ≡ prefix buf n * 256 + byte_at buf n =
      prefix_step buf (n + 1) n (omega arith) in
    let v' =
      shift_value d.val (prefix buf k) d.rem (byte_at buf n) (omega arith)
        (omega (arith, byte_at-IsU8 k buf bytes)) (byte_at-IsU8 n buf bytes) in
    (
      read_byte-buf d ∙ b,
      omega arith,
      byte,
      omega (arith, read, ap length b),
      omega (arith, v', p1, p2, byte, v),
    )

Sync-shift :
    (buf : Bytes) (e : RangeEncoder) (d : RangeDecoder)
    → IsBytes buf
    → e.rng ≤ ec_code_bot
    → Shifted e (shift_out e)
    → (shift_out e).err ≡ false
    → Holds buf e
    → Sync buf e d
    → Sync buf (shift_out e) (shift_in d)
unfolding Sync Holds Shifted seen
Sync-shift buf e d bytes small shifted ok holds sync =
    let s = shifted ok in
    let n : digits (shift_out e) + 3 ≡ digits e + 3 + 1 = omega (arith, s) in
    let m : digits e + 4 ≡ digits e + 3 + 1 = omega arith in
    rw (n, s.1, s.2)
      (SyncAt-shift buf (digits e + 3) (low e) e.rng d bytes small (rw (sym m) holds.0) sync)

same_test :
    (buf : Bytes) (e : RangeEncoder) (d : RangeDecoder)
    → Sync buf e d
    → leb d.rng ec_code_bot ≡ leb e.rng ec_code_bot
unfolding Sync SyncAt
same_test buf e d sync = ap (λ (t : ℕ). leb t ec_code_bot) sync.1

-- The same through the loops of `normalize`.
pub Sync-normalize_on :
    (buf : Bytes) (n : ℕ) (e : RangeEncoder) (d : RangeDecoder)
    → IsBytes buf
    → IsLive e
    → digits e + n < 4294967296
    → (Encoder.normalize_on n e).err ≡ false
    → Holds buf (Encoder.normalize_on n e)
    → Sync buf e d
    → Sync buf (Encoder.normalize_on n e) (Decoder.normalize_on n d)
unfolding Encoder.normalize_on Decoder.normalize_on Normalized
Sync-normalize_on buf zero e d bytes live few ok holds sync = sync
Sync-normalize_on buf (suc n) e d bytes live few ok holds sync =
    elim (Bool-cases (leb e.rng ec_code_bot)) [
      | inl small ↦
          let le : e.rng ≤ ec_code_bot = leb→le _ _ small in
          let ok' : (Encoder.normalize_on n (shift_out e)).err ≡ false = rw small at ok in
          let holds' : Holds buf (Encoder.normalize_on n (shift_out e)) = rw small at holds in
          let few' : digits (shift_out e) + n < 4294967296 = omega (arith, digits-shift_out e) in
          let live' = shift_out-IsLive e live le in
          let later = normalize_on-Normalized buf n (shift_out e) bytes live' few' ok' in
          let all = normalize_on-Normalized buf (suc n) e bytes live few ok in
          rw (small, same_test buf e d sync ∙ small)
            (Sync-normalize_on buf n (shift_out e) (shift_in d) bytes live' few' ok' holds' (
              Sync-shift buf e d bytes le (shift_out-Shifted e live le (omega arith)) later.0
                (all.5 holds) sync))
      | inr large ↦ rw (large, same_test buf e d sync ∙ large) sync
    ]
