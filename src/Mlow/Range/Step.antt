-- ===== src/Mlow/Range/Step.antt =====
-- One symbol: the encoder takes a part of its interval, and a decoder of a stream in that part
-- takes the same one.
use meowcaller.Base.{
  ℕ, ◌+◌, ◌-◌, ◌/◌, ◌≤◌, ◌<◌, ◌≡◌, ap, ◌∙◌, false, Option, none, some, arith, Bytes, IsBytes,
}
use meowcaller.Mlow.Range.Decoder
use meowcaller.Mlow.Range.Decoder.{RangeDecoder, ec_code_top, ec_code_bot}
use meowcaller.Mlow.Range.Encoder
use meowcaller.Mlow.Range.Encoder.{RangeEncoder}
use meowcaller.Mlow.Range.Digits.{prefix}
use meowcaller.Mlow.Range.Carry.{code, digits}
use meowcaller.Mlow.Range.Interval.{low, Room, IsLive, Kept, seen, Holds}
use meowcaller.Mlow.Range.Nested.{Normalized, grown, normalize_on-Normalized}
use meowcaller.Mlow.Range.Sync.{SyncAt, Sync, Sync-normalize_on}

-- An encoder between two symbols.
unfoldable pub IsReady : RangeEncoder → Type 0
IsReady e = IsLive e × (ec_code_bot < e.rng)

-- The `w` numbers of the interval from its number `a` on.
abbrev pub take_part : (a w : ℕ) → RangeEncoder → RangeEncoder
take_part a w e = record e { val = e.val + a; rng = w }

abbrev pub IsPart : (a w : ℕ) → RangeEncoder → Type 0
IsPart a w e = (0 < w) × (a + w ≤ e.rng)

-- The decoder counts from the other end.
abbrev pub TakesPart : (a w : ℕ) → RangeEncoder → (d d' : RangeDecoder) → Type 0
TakesPart a w e d d' =
    (d'.buf ≡ d.buf)
    × (d'.rem ≡ d.rem)
    × (d'.offs ≡ d.offs)
    × (d'.rng ≡ w)
    × (d'.val + (e.rng - a - w) ≡ d.val)

Room-below : (x y : ℕ) (rem : Option ℕ) → y ≤ x → Room x rem → Room y rem
unfolding Room
Room-below x y none le h = omega arith
Room-below x y (some r) le h = (h.0, λ above. h.1 (omega arith))

part-IsLive : (a w : ℕ) (e : RangeEncoder) → IsPart a w e → IsLive e → IsLive (take_part a w e)
unfolding IsLive
part-IsLive a w e part live = (
  omega arith,
  omega arith,
  omega arith,
  Room-below (e.val + e.rng) (e.val + a + w) e.rem (omega arith) live.3,
)

part-Holds :
    (buf : Bytes) (a w : ℕ) (e : RangeEncoder)
    → IsPart a w e
    → Holds buf (take_part a w e)
    → Holds buf e
unfolding Holds seen low code digits
part-Holds buf a w e part holds = omega arith

part-found :
    (buf : Bytes) (a w : ℕ) (e : RangeEncoder) (d : RangeDecoder)
    → IsPart a w e
    → Holds buf (take_part a w e)
    → Sync buf e d
    → (e.rng - a - w ≤ d.val) × (d.val < e.rng - a)
unfolding Sync SyncAt Holds seen low code digits
part-found buf a w e d part holds sync =
    let n : digits e + 3 + 1 ≡ digits e + 4 = omega arith in
    omega (arith, sync.4, ap (λ (t : ℕ). prefix buf t / 2) n)

part-Sync :
    (buf : Bytes) (a w : ℕ) (e : RangeEncoder) (d d' : RangeDecoder)
    → IsPart a w e
    → Sync buf e d
    → TakesPart a w e d d'
    → Sync buf (take_part a w e) d'
unfolding Sync SyncAt low code digits
part-Sync buf a w e d d' part (b, r, m, o, v) (b', m', o', r', v') =
    (b' ∙ b, r', m' ∙ m, o' ∙ o, omega arith)

-- What a symbol's part of the interval leaves, if there is no error.
unfoldable pub Coded : Bytes → (a w : ℕ) (e e' : RangeEncoder) → Type 0
Coded buf a w e e' =
    (e'.err ≡ false)
    → (e.err ≡ false)
      × IsReady e'
      × (digits e' ≤ digits e + 3)
      × Kept e e'
      × (Holds buf e' → Holds buf e)
      × ((d : RangeDecoder)
          → Holds buf e'
          → Sync buf e d
          → (e.rng - a - w ≤ d.val) × (d.val < e.rng - a))
      × ((d d' : RangeDecoder)
          → Holds buf e'
          → Sync buf e d
          → TakesPart a w e d d'
          → Sync buf e' (Decoder.normalize d'))

pub part-Coded :
    (buf : Bytes) (a w : ℕ) (e : RangeEncoder)
    → IsBytes buf
    → IsReady e
    → IsPart a w e
    → digits e + 3 < 4294967296
    → Coded buf a w e (Encoder.normalize (take_part a w e))
unfolding Coded Encoder.normalize Decoder.normalize IsReady Normalized grown Kept digits code
part-Coded buf a w e bytes ready part few ok =
    let e1 = take_part a w e in
    let live = part-IsLive a w e part ready.0 in
    let n = normalize_on-Normalized buf 3 e1 bytes live few ok in
    (
      n.0,
      (n.1, n.4 (omega arith)),
      n.2,
      n.3,
      λ holds. part-Holds buf a w e part (n.5 holds),
      λ d holds sync. part-found buf a w e d part (n.5 holds) sync,
      λ d d' holds sync takes.
          Sync-normalize_on buf 3 e1 d' bytes live few ok holds
            (part-Sync buf a w e d d' part sync takes),
    )
