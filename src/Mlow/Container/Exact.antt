-- ===== src/Mlow/Container/Exact.antt =====
-- Which payloads are containers, and of which frames.
use meowcaller.Base.{
  ℕ, zero, suc, ◌-◌, ◌≤◌, ◌<◌, ◌≡◌, refl, sym, ap, ◌∙◌, ◌↔◌, inl, inr, false, not, ◌||◌, none, some,
  List, [], ◌∷◌, ◌++◌, arith, ltb, ◌==◌, Bool-cases, >>=-eq-some, length, take, drop, length-append,
  take-append-drop, length-take, take-append, drop-append, All-drop, Bytes, IsU8, IsBytes,
}
use meowcaller.Mlow.Container.{cut_container, split_container}

-- The layout of a container: each frame but the last behind a byte with its size.
unfoldable pub frames_bytes : List Bytes → Bytes
frames_bytes [] = []
frames_bytes (f ∷ []) = f
frames_bytes (f ∷ g ∷ fs) = length f ∷ f ++ frames_bytes (g ∷ fs)

-- A frame in front of others has a size that fits a byte, and the last one is not empty.
unfoldable pub AreFrames : List Bytes → Type 0
AreFrames [] = ⊥
AreFrames (f ∷ []) = 0 < length f
AreFrames (f ∷ g ∷ fs) = (length f < 256) × AreFrames (g ∷ fs)

cut-frames :
    (n : ℕ) (fs : List Bytes)
    → length fs ≡ suc n
    → AreFrames fs
    → cut_container n (frames_bytes fs) ≡ some fs
unfolding cut_container frames_bytes AreFrames
cut-frames n [] e h = absurd (omega arith)
cut-frames zero (f ∷ []) e h = let full : (length f == 0) ≡ false = ground arith in rw full refl
cut-frames (suc n) (f ∷ []) e h = absurd (omega arith)
cut-frames zero (f ∷ g ∷ fs) e h = absurd (omega arith)
cut-frames (suc n) (f ∷ g ∷ fs) e (small, h) =
    let rest = frames_bytes (g ∷ fs) in
    let fits : ltb (length (f ++ rest)) (length f) ≡ false = ground (arith, length-append f rest) in
    let some_byte : (suc (length (f ++ rest)) == 0) ≡ false = ground arith in
    rw
      (
        some_byte,
        fits,
        drop-append (length f) f rest refl,
        take-append (length f) f rest refl,
        cut-frames n (g ∷ fs) (omega arith) h,
      )
      refl

cons-frames :
    (f : Bytes) (fs : List Bytes)
    → 0 < length fs
    → length f < 256
    → AreFrames fs
    → AreFrames (f ∷ fs) × (frames_bytes (f ∷ fs) ≡ length f ∷ f ++ frames_bytes fs)
unfolding AreFrames frames_bytes
cons-frames f [] some_frame small h = absurd (omega arith)
cons-frames f (g ∷ fs) some_frame small h = ((small, h), refl)

some_injective {ℓ} : {A : Type ℓ} {x y : A} → some x ≡ some y → x ≡ y
some_injective e = cc

none-some {ℓ} : {A : Type ℓ} {y : A} → none ≡ some y → ⊥
none-some e = cc

frames-cut :
    (n : ℕ) (rest : Bytes) (fs : List Bytes)
    → IsBytes rest
    → cut_container n rest ≡ some fs
    → (length fs ≡ suc n) × AreFrames fs × (rest ≡ frames_bytes fs)
unfolding cut_container frames_bytes AreFrames
frames-cut zero rest fs bytes e = elim (Bool-cases (length rest == 0)) [
  | inl none_left ↦ absurd (none-some (rw none_left at e))
  | inr full ↦
      let same : rest ∷ [] ≡ fs = some_injective (rw full at e) in
      rw (sym same) (refl, ground arith, refl)
]
frames-cut (suc n) [] fs bytes e = absurd (none-some e)
frames-cut (suc n) (b ∷ body) fs (small, bytes) e =
    let some_byte : (suc (length body) == 0) ≡ false = ground arith in
    elim (Bool-cases (ltb (length body) b)) [
      | inl short ↦ absurd (none-some (rw (some_byte, short) at e))
      | inr fits ↦
          let m =
            >>=-eq-some (cut_container n (drop b body)) (λ frames. some (take b body ∷ frames))
              (rw (some_byte, fits) at e) in
          let more = frames-cut n (drop b body) m.0 (All-drop IsU8 b body bytes) m.1 in
          let same : take b body ∷ m.0 ≡ fs = some_injective m.2 in
          let size : length (take b body) ≡ b = ground (arith, length-take b body) in
          let cons =
            cons-frames (take b body) m.0 (omega (arith, more.0)) (omega (arith, size)) more.1 in
          rw (sym same) (
            omega (arith, more.0),
            cons.0,
            ap (◌∷◌ b) (sym (take-append-drop b body) ∙ ap (◌++◌ (take b body)) more.2)
                ∙ ap (λ (k : ℕ). k ∷ take b body ++ frames_bytes m.0) (sym size)
                ∙ sym cons.1,
          )
    ]

-- The containers of two to eight frames.
unfoldable pub container_of : List Bytes → Bytes
container_of fs = 0x92 ∷ length fs ∷ frames_bytes fs

abbrev pub IsContent : List Bytes → Type 0
IsContent fs = (2 ≤ length fs) × (length fs ≤ 8) × AreFrames fs

some_bytes : (fs : List Bytes) → AreFrames fs → 0 < length (frames_bytes fs)
unfolding AreFrames frames_bytes
some_bytes [] h = absurd h
some_bytes (f ∷ []) h = h
some_bytes (f ∷ g ∷ fs) h = omega arith

container_of-split :
    (p : Bytes) (fs : List Bytes)
    → IsBytes p
    → split_container p ≡ some fs
    → IsContent fs × (p ≡ container_of fs)
unfolding split_container container_of
container_of-split [] fs bytes e = absurd (none-some e)
container_of-split (x ∷ []) fs bytes e = absurd (none-some e)
container_of-split (x ∷ y ∷ rest) fs (hx, (hy, bytes)) e =
    elim (Bool-cases (ltb (suc (suc (length rest))) 3 || not (x == 0x92))) [
      | inl other ↦ absurd (none-some (rw other at e))
      | inr marked ↦ elim (Bool-cases (ltb y 2 || ltb 8 y)) [
        | inl count ↦ absurd (none-some (rw (marked, count) at e))
        | inr count ↦
            let cut = frames-cut (y - 1) rest fs bytes (rw (marked, count) at e) in
            let marker : x ≡ 0x92 = ground arith in
            let size : y ≡ length fs = ground (arith, cut.0) in
            (
              (ground (arith, cut.0), ground (arith, cut.0), cut.1),
              ap (λ (t : ℕ). t ∷ y ∷ rest) marker
                  ∙ ap (λ (t : ℕ). 0x92 ∷ t ∷ rest) size
                  ∙ ap (λ (t : Bytes). 0x92 ∷ length fs ∷ t) cut.2,
            )
      ]
    ]

split-container_of : (fs : List Bytes) → IsContent fs → split_container (container_of fs) ≡ some fs
unfolding split_container container_of
split-container_of fs (two, eight, h) =
    let rest = frames_bytes fs in
    let long : (ltb (suc (suc (length rest))) 3 || not (0x92 == 0x92)) ≡ false =
      ground (arith, some_bytes fs h) in
    let count : (ltb (length fs) 2 || ltb 8 (length fs)) ≡ false = ground arith in
    rw (long, count) (cut-frames (length fs - 1) fs (omega arith) h)

-- splitContainer returns frames for a payload if and only if these are two to eight frames, of
-- which each but the last has at most 255 bytes and the last has one at least, and the payload is
-- the marker, their count, and the frames, each but the last behind its size.
pub split_container-exact :
    (p : Bytes) (fs : List Bytes)
    → IsBytes p
    → (split_container p ≡ some fs) ↔ (IsContent fs × (p ≡ container_of fs))
split_container-exact p fs bytes = (
  container_of-split p fs bytes,
  λ (h : IsContent fs × (p ≡ container_of fs)). rw h.1 (split-container_of fs h.0),
)
