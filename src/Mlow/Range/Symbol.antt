-- ===== src/Mlow/Range/Symbol.antt =====
-- One symbol by its frequencies: what `Encode` puts into a stream `Decode` finds in it.
use meowcaller.Base.{
  ℕ, ◌+◌, ◌-◌, ◌*◌, ◌/◌, ◌≤◌, ◌<◌, ◌≡◌, refl, ap, inl, inr, false, arith, ltb, ◌==◌, if◌then◌else◌,
  Bool-cases, Bytes, IsBytes, u32, sub32,
}
use native.Mathlib.Nat.{div-le_self}
use meowcaller.Mlow.Range.Decoder.{
  RangeDecoder, narrow_in, update, decode, ec_code_top, ec_code_bot,
}
use meowcaller.Mlow.Range.Encoder
use meowcaller.Mlow.Range.Encoder.{RangeEncoder, narrow, encode}
use meowcaller.Mlow.Range.Carry.{digits}
use meowcaller.Mlow.Range.Interval.{IsLive, Holds}
use meowcaller.Mlow.Range.Sync.{SyncAt, Sync}
use meowcaller.Mlow.Range.Step.{IsReady, take_part, TakesPart, Coded, part-Coded}
use meowcaller.Mlow.Range.Split.{
  IsInterval, part_start, part_width, u32-lt, sub32-le, unit_facts, part-IsPart, part_ends, unit-in,
}

-- The products of `Encode` do not wrap.
pub products :
    (fl fh ft rng : ℕ)
    → IsInterval fl fh ft
    → ec_code_bot < rng
    → rng ≤ ec_code_top
    → (u32 (rng / ft * sub32 ft fl) ≡ rng / ft * (ft - fl))
      × (u32 (rng / ft * sub32 ft fh) ≡ rng / ft * (ft - fh))
      × (u32 (rng / ft * sub32 fh fl) ≡ rng / ft * (fh - fl))
products fl fh ft rng h big top =
    let facts = unit_facts fl fh ft rng h big in
    rw
      (
        sub32-le ft fl (omega arith) (omega arith),
        sub32-le ft fh (omega arith) (omega arith),
        sub32-le fh fl (omega arith) (omega arith),
      )
      (
        u32-lt (rng / ft * (ft - fl)) (omega arith),
        u32-lt (rng / ft * (ft - fh)) (omega arith),
        u32-lt (rng / ft * (fh - fl)) (omega arith),
      )

pub same_part :
    (e : RangeEncoder) {v v' r r' : ℕ}
    → v ≡ v'
    → r ≡ r'
    → (record e { val = v; rng = r }) ≡ (record e { val = v'; rng = r' })
same_part e ev er = cc

narrow_lem :
    (fl fh ft : ℕ) (e : RangeEncoder)
    → IsInterval fl fh ft
    → IsReady e
    → narrow fl fh ft e ≡ take_part (part_start fl fh ft e.rng) (part_width fl fh ft e.rng) e
unfolding narrow IsReady IsLive
narrow_lem fl fh ft e h ready =
    let p = products fl fh ft e.rng h ready.1 ready.0.1 in
    let facts = unit_facts fl fh ft e.rng h ready.1 in
    elim (Bool-cases (ltb 0 fl)) [
      | inl pos ↦ rw pos (same_part e (omega (arith, p, facts)) p.2)
      | inr neg ↦ rw neg (same_part e (omega arith) (omega (arith, p, facts)))
    ]

pub encode_lem :
    (fl fh ft : ℕ) (e : RangeEncoder)
    → IsInterval fl fh ft
    → IsReady e
    → encode fl fh ft e
      ≡ Encoder.normalize (take_part (part_start fl fh ft e.rng) (part_width fl fh ft e.rng) e)
unfolding encode
encode_lem fl fh ft e h ready =
    let nonzero : (ft == 0) ≡ false = ground arith in
    rw nonzero (ap Encoder.normalize (narrow_lem fl fh ft e h ready))

-- `Decode` at a decoder with the encoder's range.
pub decode_lem :
    (fl fh ft : ℕ) (d : RangeDecoder)
    → IsInterval fl fh ft
    → ec_code_bot < d.rng
    → d.rng ≤ ec_code_top
    → d.rng - part_start fl fh ft d.rng - part_width fl fh ft d.rng ≤ d.val
    → d.val < d.rng - part_start fl fh ft d.rng
    → (fl ≤ (decode ft d).value)
      × ((decode ft d).value < fh)
      × ((decode ft d).coder ≡ record d { ext = d.rng / ft })
unfolding decode
decode_lem fl fh ft d h big top above below = ground (
  arith,
  unit_facts fl fh ft d.rng h big,
  unit-in fl fh ft d.rng d.val h big above below,
  div-le_self d.val (d.rng / ft),
)

pub narrow_in-TakesPart :
    (fl fh ft : ℕ) (e : RangeEncoder) (d : RangeDecoder)
    → IsInterval fl fh ft
    → IsReady e
    → d.rng ≡ e.rng
    → e.rng - part_start fl fh ft e.rng - part_width fl fh ft e.rng ≤ d.val
    → d.val < 4294967296
    → TakesPart
        (part_start fl fh ft e.rng)
        (part_width fl fh ft e.rng)
        e
        d
        (narrow_in fl fh ft (record d { ext = d.rng / ft }))
unfolding narrow_in IsReady IsLive
narrow_in-TakesPart fl fh ft e d h ready same above small =
    let p = products fl fh ft e.rng h ready.1 ready.0.1 in
    let facts = unit_facts fl fh ft e.rng h ready.1 in
    let ends = part_ends fl fh ft e.rng h ready.1 in
    let width : (if ltb 0 fl
          then u32 (e.rng / ft * sub32 fh fl)
          else sub32 e.rng (u32 (e.rng / ft * sub32 ft fh)))
        ≡ part_width fl fh ft e.rng =
      elim (Bool-cases (ltb 0 fl)) [
        | inl pos ↦ rw pos p.2
        | inr neg ↦ rw neg (omega (arith, p, facts))
      ] in
    (refl, refl, refl, rw same width, rw same (omega (arith, p, facts, ends)))

-- One symbol of the encoder, and of the decoder behind it.
pub encode-Coded :
    (buf : Bytes) (fl fh ft : ℕ) (e : RangeEncoder)
    → IsBytes buf
    → IsReady e
    → IsInterval fl fh ft
    → digits e + 3 < 4294967296
    → Coded buf (part_start fl fh ft e.rng) (part_width fl fh ft e.rng) e (encode fl fh ft e)
unfolding IsReady
encode-Coded buf fl fh ft e bytes ready h few = rw (encode_lem fl fh ft e h ready) (
    part-Coded buf (part_start fl fh ft e.rng) (part_width fl fh ft e.rng) e bytes ready
      (part-IsPart fl fh ft e.rng h ready.1) few)

pub decode-encode :
    (buf : Bytes) (fl fh ft : ℕ) (e : RangeEncoder) (d : RangeDecoder)
    → IsBytes buf
    → IsReady e
    → IsInterval fl fh ft
    → digits e + 3 < 4294967296
    → (encode fl fh ft e).err ≡ false
    → Holds buf (encode fl fh ft e)
    → Sync buf e d
    → (fl ≤ (decode ft d).value)
      × ((decode ft d).value < fh)
      × Sync buf (encode fl fh ft e) (update fl fh ft (decode ft d).coder)
unfolding Coded IsReady IsLive update Sync SyncAt
decode-encode buf fl fh ft e d bytes ready h few ok holds sync =
    let coded = encode-Coded buf fl fh ft e bytes ready h few ok in
    let found = coded.5 d holds sync in
    let read =
      decode_lem fl fh ft d h (omega (arith, sync.1)) (omega (arith, sync.1)) (rw sync.1 found.0)
        (rw sync.1 found.1) in
    (
      read.0,
      read.1,
      rw read.2 (
          coded.6 d (narrow_in fl fh ft (record d { ext = d.rng / ft })) holds sync
            (narrow_in-TakesPart fl fh ft e d h ready sync.1 found.0 (omega arith))),
    )
