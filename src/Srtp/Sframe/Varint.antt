-- ===== src/Srtp/Sframe/Varint.antt =====
-- The trailing header of a frame and its varints.
use meowcaller.Base.{
  ℕ, zero, suc, ◌+◌, ◌-◌, ◌*◌, ◌/◌, ◌≤◌, ◌<◌, ◌≡◌, refl, ◌∙◌, inl, inr, false, not, some, [], ◌∷◌,
  ◌++◌, append-nil, arith, ltb, ◌==◌, Bool-cases, length, take, length-append, take-append,
  drop-append, Bytes, IsU64, u8, byte_at,
}
use meowcaller.Srtp.Sframe.{uvarint_bytes, uvarint, build_sframe_header, parse_sframe_header}

-- What `n` more bytes of a varint can hold: the last of the ten holds one bit.
unfoldable capacity : ℕ → ℕ
capacity zero = 1
capacity (suc zero) = 2
capacity (suc (suc n)) = 128 * capacity (suc n)

length-uvarint_bytes :
    (n x : ℕ)
    → x < capacity n
    → 0 < n
    → (0 < length (uvarint_bytes n x)) × (length (uvarint_bytes n x) ≤ n)
unfolding uvarint_bytes capacity
length-uvarint_bytes zero x h p = absurd (omega arith)
length-uvarint_bytes (suc zero) x h p = ground arith
length-uvarint_bytes (suc (suc n)) x h p =
    ground (arith, length-uvarint_bytes (suc n) (x / 128) (omega arith) (omega arith))

uvarint-append :
    (n i x : ℕ) (rest : Bytes)
    → 0 < n
    → n + i ≡ 10
    → x < capacity n
    → uvarint i (uvarint_bytes n x ++ rest) ≡ some (x, length (uvarint_bytes n x))
unfolding uvarint uvarint_bytes capacity
uvarint-append zero i x rest p e h = absurd (omega arith)
uvarint-append (suc zero) i x rest p e h = ground arith
uvarint-append (suc (suc n)) i x rest p e h = elim (Bool-cases (ltb x 128)) [
  | inl last ↦ rw (last, last) (ground (arith, last))
  | inr more ↦
      let next =
        uvarint-append (suc n) (suc i) (x / 128) rest (omega arith) (omega arith) (omega arith) in
      rw more (ground (arith, more, next))
]

last_byte : (xs : Bytes) (y n : ℕ) → n ≡ length xs → byte_at (xs ++ (y ∷ [])) n ≡ y
last_byte [] y zero h = refl
last_byte [] y (suc n) h = absurd (omega arith)
last_byte (x ∷ xs) y zero h = absurd (omega arith)
last_byte (x ∷ xs) y (suc n) h = last_byte xs y n (omega arith)

-- The SFrame header of any two 64-bit numbers is parsed back, has 3 to 21 bytes, and its last
-- byte is their number.
pub parse-build_sframe_header :
    (counter key_id : ℕ)
    → IsU64 counter
    → IsU64 key_id
    → (parse_sframe_header (build_sframe_header counter key_id) ≡ some (counter, key_id))
      × (3 ≤ length (build_sframe_header counter key_id))
      × (length (build_sframe_header counter key_id) ≤ 21)
      × (byte_at
            (build_sframe_header counter key_id)
            (length (build_sframe_header counter key_id) - 1)
          ≡ length (build_sframe_header counter key_id))
unfolding parse_sframe_header build_sframe_header capacity
parse-build_sframe_header counter key_id hc hk =
    let a = uvarint_bytes 10 counter in
    let b = uvarint_bytes 10 key_id in
    let (la, ha) = length-uvarint_bytes 10 counter hc (omega arith) in
    let (lb, hb) = length-uvarint_bytes 10 key_id hk (omega arith) in
    let joined : length (a ++ b) ≡ length a + length b = length-append a b in
    let byte = u8 (length (a ++ b) + 1) in
    let size : length ((a ++ b) ++ (byte ∷ [])) ≡ length (a ++ b) + 1 =
      length-append (a ++ b) (byte ∷ []) in
    let last : byte_at ((a ++ b) ++ (byte ∷ [])) (length ((a ++ b) ++ (byte ∷ [])) - 1)
        ≡ length ((a ++ b) ++ (byte ∷ [])) =
      last_byte (a ++ b) byte (length ((a ++ b) ++ (byte ∷ [])) - 1) (omega (arith, size))
      ∙ omega (arith, size, joined) in
    let init : take (length ((a ++ b) ++ (byte ∷ [])) - 1) ((a ++ b) ++ (byte ∷ [])) ≡ a ++ b =
      take-append (length ((a ++ b) ++ (byte ∷ [])) - 1) (a ++ b) (byte ∷ [])
        (omega (arith, size)) in
    let long : ltb (length ((a ++ b) ++ (byte ∷ []))) 2 ≡ false = ground (arith, size, joined) in
    let sized : not (
          byte_at ((a ++ b) ++ (byte ∷ [])) (length ((a ++ b) ++ (byte ∷ [])) - 1)
          == length ((a ++ b) ++ (byte ∷ [])))
        ≡ false =
      ground (arith, last) in
    let first : uvarint 0 (a ++ b) ≡ some (counter, length a) =
      uvarint-append 10 0 counter b (omega arith) refl hc in
    let second : uvarint 0 b ≡ some (key_id, length b) =
      rw (append-nil b) at (uvarint-append 10 0 key_id [] (omega arith) refl hk) in
    (
      rw (long, sized, init, first, drop-append (length a) a b refl, second) refl,
      omega (arith, size, joined),
      omega (arith, size, joined),
      last,
    )
