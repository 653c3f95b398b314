-- ===== src/Mlow/Range/Kinds.antt =====
-- The step of each kind of symbol.
use meowcaller.Base.{
  ℕ, zero, suc, ◌+◌, ◌-◌, ◌≤◌, ◌<◌, ◌≡◌, refl, ap, ◌∙◌, false, ◌||◌, some, List, [], ◌∷◌, arith,
  ltb, leb, length, All, Bytes, IsU16, IsBytes, u32, byte_at,
}
use meowcaller.Mlow.Range.Decoder.{RangeDecoder, update, decode, ec_code_top, ec_code_bot}
use meowcaller.Mlow.Range.Symbols.{Located, decode_cdf}
use meowcaller.Mlow.Range.Encoder.{RangeEncoder, encode, encode_cdf}
use meowcaller.Mlow.Range.Carry.{digits}
use meowcaller.Mlow.Range.Step.{IsReady}
use meowcaller.Mlow.Range.Split.{u32-lt, sub32-le}
use meowcaller.Mlow.Range.Codec.{Symbol, by_cdf, value_of, encode_symbol, decode_symbol, IsSymbol}
use meowcaller.Mlow.Range.Search.{Rising-between, find_cdf-finds}
use meowcaller.Mlow.Range.Frequencies.{Step, frequency-Step}

pub entry-IsU16 : (i : ℕ) (xs : List ℕ) → All IsU16 xs → IsU16 (byte_at xs i)
entry-IsU16 i [] h = omega arith
entry-IsU16 zero (x ∷ xs) (hx, h) = hx
entry-IsU16 (suc i) (x ∷ xs) (hx, h) = entry-IsU16 i xs h

abbrev cdf_top : List ℕ → ℕ
cdf_top cdf = byte_at cdf (length cdf - 1)

-- The order of the four entries of a table that matter.
pub cdf_order :
    (s : ℕ) (cdf : List ℕ)
    → IsSymbol (by_cdf s cdf)
    → (byte_at cdf 0 ≤ byte_at cdf s)
      × (byte_at cdf s < byte_at cdf (suc s))
      × (byte_at cdf (suc s) ≤ cdf_top cdf)
      × (cdf_top cdf < 65536)
      × (suc s < length cdf)
unfolding IsSymbol
cdf_order s cdf (small, rising, inside, share) = (
  Rising-between cdf 0 s rising (omega arith) (omega arith),
  share,
  Rising-between cdf (suc s) (length cdf - 1) rising (omega arith) (omega arith),
  entry-IsU16 (length cdf - 1) cdf small,
  inside,
)

pub encode_cdf_lem :
    (s : ℕ) (cdf : List ℕ) (e : RangeEncoder)
    → IsSymbol (by_cdf s cdf)
    → encode_cdf s cdf e
      ≡ encode
          (byte_at cdf s - byte_at cdf 0)
          (byte_at cdf (suc s) - byte_at cdf 0)
          (cdf_top cdf - byte_at cdf 0)
          e
unfolding encode_cdf
encode_cdf_lem s cdf e h =
    let o = cdf_order s cdf h in
    let long : (ltb (length cdf) 2 || leb (length cdf) (s + 1)) ≡ false = ground (arith, o) in
    let filled : leb (cdf_top cdf) (byte_at cdf 0) ≡ false = ground (arith, o) in
    let next : s + 1 ≡ suc s = omega arith in
    rw
      (
        long,
        filled,
        next,
        sub32-le (byte_at cdf s) (byte_at cdf 0) (omega (arith, o)) (omega (arith, o)),
        sub32-le (byte_at cdf (suc s)) (byte_at cdf 0) (omega (arith, o)) (omega (arith, o)),
      )
      refl

decode_cdf_lem :
    (s : ℕ) (cdf : List ℕ) (d : RangeDecoder)
    → IsSymbol (by_cdf s cdf)
    → let base = byte_at cdf 0 in
      let read = decode (cdf_top cdf - base) d in
      (byte_at cdf s - base ≤ read.value)
      → (read.value < byte_at cdf (suc s) - base)
      → decode_cdf cdf d
        ≡ some (record {
          value = s;
          coder =
              update
                (byte_at cdf s - base)
                (byte_at cdf (suc s) - base)
                (cdf_top cdf - base)
                read.coder;
        })
unfolding decode_cdf IsSymbol
decode_cdf_lem s cdf d h from to =
    let o = cdf_order s cdf h in
    let base = byte_at cdf 0 in
    let read = decode (cdf_top cdf - base) d in
    let usable : (ltb (length cdf) 2 || leb (cdf_top cdf) base) ≡ false = ground (arith, o) in
    let target : u32 (base + read.value) ≡ base + read.value = omega (arith, o) in
    let found =
      find_cdf-finds (base + read.value) 0 s cdf h.1 h.2 (omega arith) (omega (arith, o)) in
    let f : Located = record {
      index = 0 + s;
      before = byte_at cdf s;
      after = byte_at cdf (suc s);
    } in
    let index : 0 + s ≡ s = omega arith in
    rw (usable, target, found, index)
      (ap (λ (c : RangeDecoder). some (record { value = s; coder = c }))
        (same_update read.coder (cdf_top cdf - base)
          (sub32-le f.before base (omega (arith, o)) (omega (arith, o)))
          (sub32-le f.after base (omega (arith, o)) (omega (arith, o)))))
  where
    same_update :
        (c : RangeDecoder) (ft : ℕ) {fl fl' fh fh' : ℕ}
        → fl ≡ fl'
        → fh ≡ fh'
        → update fl fh ft c ≡ update fl' fh' ft c
    same_update c ft p q = cc

pub by_cdf-Step :
    (buf : Bytes) (s : ℕ) (cdf : List ℕ) (e : RangeEncoder)
    → IsBytes buf
    → IsReady e
    → IsSymbol (by_cdf s cdf)
    → digits e + 3 < 4294967296
    → Step buf (by_cdf s cdf) e
unfolding encode_symbol decode_symbol value_of
by_cdf-Step buf s cdf e bytes ready h few =
    let o = cdf_order s cdf h in
    let base = byte_at cdf 0 in
    let fl = byte_at cdf s - base in
    let fh = byte_at cdf (suc s) - base in
    let ft = cdf_top cdf - base in
    frequency-Step buf fl fh ft (by_cdf s cdf) e bytes ready
      (omega (arith, o), omega (arith, o), omega (arith, o)) few (encode_cdf_lem s cdf e h)
      (λ d big top val from to coder.
        rw (decode_cdf_lem s cdf d h from to)
          (ap (λ (c : RangeDecoder). some (record { value = s; coder = update fl fh ft c })) coder))

-- A symbol that has one of the frequencies.
pub single-Step :
    (buf : Bytes) (sym ft : ℕ) (s : Symbol) (e : RangeEncoder)
    → IsBytes buf
    → IsReady e
    → sym < ft
    → ft ≤ ec_code_bot
    → digits e + 3 < 4294967296
    → value_of s ≡ sym
    → encode_symbol s e ≡ encode sym (u32 (sym + 1)) ft e
    → ((d : RangeDecoder)
        → ec_code_bot < d.rng
        → d.rng ≤ ec_code_top
        → d.val < d.rng
        → let read = decode ft d in
          decode_symbol s d
          ≡ some (record {
            value = read.value;
            coder = update read.value (u32 (read.value + 1)) ft read.coder;
          }))
    → Step buf s e
single-Step buf v ft s e bytes ready lt le few is same reads =
    let next = u32-lt (v + 1) (omega arith) in
    frequency-Step buf v (v + 1) ft s e bytes ready (omega arith, omega arith, le) few
      (same ∙ ap (λ (t : ℕ). encode v t ft e) next)
      (λ d big top val from to coder.
        let here : (decode ft d).value ≡ v = omega arith in
        reads d big top val ∙ rw (here, coder, next, is) refl)
