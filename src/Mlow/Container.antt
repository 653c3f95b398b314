-- ===== src/Mlow/Container.antt =====
-- mlow/decoder.go: `splitContainer`, which takes a payload of several frames apart.
pub mod Exact
mod Tests
use meowcaller.Base.{
  ℕ, zero, suc, ◌-◌, not, ◌||◌, Option, none, some, List, [], ◌∷◌, ltb, ◌==◌, if◌then◌else◌, ◌>>=◌,
  length, take, drop, Bytes, byte_at,
}

-- The loop, at the count of frames that are left before the last one, and the payload from `off` on.
unfoldable pub cut_container : ℕ → Bytes → Option (List Bytes)
cut_container zero rest = if length rest == 0 then none else some (rest ∷ [])
cut_container (suc n) rest =
    let flen = byte_at rest 0 in
    let body = drop 1 rest in
    let more = cut_container n (drop flen body) in
    if length rest == 0
    then none
    else if ltb (length body) flen
    then none
    else more >>= λ frames. some (take flen body ∷ frames)

unfoldable pub split_container : Bytes → Option (List Bytes)
split_container p =
    let count = byte_at p 1 in
    if ltb (length p) 3 || not (byte_at p 0 == 0x92)
    then none
    else if ltb count 2 || ltb 8 count
    then none
    else cut_container (count - 1) (drop 2 p)
