-- ===== src/Rtp/H264.antt =====
-- rtp/h264.go: H.264 NAL units in RTP payloads (RFC 6184). A nil slice is the empty list. `x & 0xE0`
-- and `x & 0x1F` are written by division, and `|` of parts with no common bit as a sum.
pub mod Fragments
pub mod Aggregates
mod StartCodes
pub mod AnnexB
mod Tests
use meowcaller.Base.{
  ℕ, zero, suc, ◌+◌, ◌-◌, ◌*◌, ◌/◌, ◌%◌, min, Bool, true, false, ◌&&◌, ◌||◌, Option, none, some,
  List, [], ◌∷◌, ◌++◌, ltb, leb, ◌==◌, if◌then◌else◌, length, take, drop, Bytes, u8, shr, bit,
  byte_at, slice, read_be16,
}

abbrev pub stap_a_type : ℕ
stap_a_type = 24

abbrev pub fu_a_type : ℕ
fu_a_type = 28

abbrev pub mtu_payload_max : ℕ
mtu_payload_max = 800

-- `4 << 20`
abbrev pub max_fu_reassembly_bytes : ℕ
max_fu_reassembly_bytes = 4194304

-- `b & 0xE0` and `b & 0x1F`
abbrev pub f_bit_and_nri : ℕ → ℕ
f_bit_and_nri b = b / 32 % 8 * 32

abbrev pub type_bits : ℕ → ℕ
type_bits b = b % 32

abbrev pub fu_header : ℕ → Bool → Bool → ℕ
fu_header original_type first last =
    original_type + (if first then 0x80 else 0) + (if last then 0x40 else 0)

-- The loop of `PackageH264NALU` from an offset of the body on. Each round takes a byte at least, so
-- the body's length is enough fuel.
unfoldable pub fragments : ℕ → ℕ → ℕ → Bytes → ℕ → List Bytes
fragments zero fu_indicator original_type body offset = []
fragments (suc fuel) fu_indicator original_type body offset =
    let end = min (offset + (mtu_payload_max - 2)) (length body) in
    let rest = fragments fuel fu_indicator original_type body end in
    let header = fu_header original_type (offset == 0) (end == length body) in
    if ltb offset (length body) then (fu_indicator ∷ header ∷ slice offset end body) ∷ rest else []

-- `PackageH264NALU`
unfoldable pub package_h264_nalu : Bytes → List Bytes
package_h264_nalu [] = []
package_h264_nalu (header ∷ body) =
    if leb (suc (length body)) mtu_payload_max
    then (header ∷ body) ∷ []
    else fragments (length body) (f_bit_and_nri header + fu_a_type) (type_bits header) body 0

-- The first loop of `PackageH264STAPA`: the total size and the highest NRI, unless a unit does not
-- fit.
unfoldable pub stap_a_size : ℕ → ℕ → List Bytes → Option (ℕ × ℕ)
stap_a_size total max_nri [] = some (total, max_nri)
stap_a_size total max_nri (n ∷ nalus) =
    let next = total + (2 + length n) in
    let nri = byte_at n 0 / 32 % 4 * 32 in
    let rest = stap_a_size next (if ltb max_nri nri then nri else max_nri) nalus in
    if length n == 0 || ltb 0xFFFF (length n) || ltb mtu_payload_max next then none else rest

-- Its second loop.
unfoldable pub stap_a_body : List Bytes → Bytes
stap_a_body [] = []
stap_a_body (n ∷ nalus) = u8 (shr (length n) 8) ∷ u8 (length n) ∷ (n ++ stap_a_body nalus)

-- `PackageH264STAPA`
unfoldable pub package_h264_stap_a : List Bytes → Bytes
package_h264_stap_a nalus = if ltb (length nalus) 2 then [] else elim (stap_a_size 1 0 nalus) [
  | none ↦ []
  | some (total, max_nri) ↦ (max_nri + stap_a_type) ∷ stap_a_body nalus
]

-- `annexBStartCodeLen`
unfoldable pub annex_b_start_code_len : Bytes → ℕ → ℕ
annex_b_start_code_len xs i =
    if ltb (i + 3) (length xs)
      && byte_at xs i == 0
      && byte_at xs (i + 1) == 0
      && byte_at xs (i + 2) == 0
      && byte_at xs (i + 3) == 1
    then 4
    else if ltb (i + 2) (length xs)
        && byte_at xs i == 0
        && byte_at xs (i + 1) == 0
        && byte_at xs (i + 2) == 1
    then 3
    else 0

-- The inner loop of `SplitAnnexB`: `end` without the zero bytes in front of it, down to `start`.
unfoldable pub trim_zeros : Bytes → ℕ → ℕ → ℕ
trim_zeros xs start zero = zero
trim_zeros xs start (suc end) =
    let rest = trim_zeros xs start end in
    if ltb start (suc end) && byte_at xs end == 0 then rest else suc end

-- The unit that ends at a start code, if a unit was open and is not empty.
unfoldable pub close_nalu : Bytes → Option ℕ → ℕ → List Bytes
close_nalu xs none i = []
close_nalu xs (some start) i =
    let end = trim_zeros xs start i in if ltb start end then slice start end xs ∷ [] else []

-- The unit that is open at the end of the data.
unfoldable pub last_nalu : Bytes → Option ℕ → List Bytes
last_nalu xs none = []
last_nalu xs (some start) = if ltb start (length xs) then drop start xs ∷ [] else []

-- The loop of `SplitAnnexB` with `start` and `i`; a `start` of -1 is `none`. Each round moves `i`
-- on, so the data's length is enough fuel.
unfoldable pub split_from : ℕ → Bytes → Option ℕ → ℕ → List Bytes
split_from zero xs start i = last_nalu xs start
split_from (suc fuel) xs start i =
    let code = annex_b_start_code_len xs i in
    let found = split_from fuel xs (some (i + code)) (i + code) in
    let on = split_from fuel xs start (suc i) in
    if ltb i (length xs)
    then (if ltb 0 code then close_nalu xs start i ++ found else on)
    else last_nalu xs start

-- `SplitAnnexB`
unfoldable pub split_annex_b : Bytes → List Bytes
split_annex_b xs = split_from (length xs) xs none 0

-- `AUHasIDR`
unfoldable pub any_idr : List Bytes → Bool
any_idr [] = false
any_idr (nalu ∷ nalus) = (ltb 0 (length nalu) && type_bits (byte_at nalu 0) == 5) || any_idr nalus

unfoldable pub au_has_idr : Bytes → Bool
au_has_idr au = any_idr (split_annex_b au)

pub record H264Depacketizer : Type 0 where
  pub fu_buf : Bytes
  pub fu_type : ℕ
  pub fu_nri_f : ℕ
  pub fu_active : Bool

-- The loop of `Depacketize` over a STAP-A body. Each round takes two bytes at least, so the body's
-- length is enough fuel.
unfoldable pub stap_a_units : ℕ → Bytes → List Bytes
stap_a_units zero body = []
stap_a_units (suc fuel) body =
    let size = read_be16 body 0 in
    let rest = drop 2 body in
    let more = stap_a_units fuel (drop size rest) in
    if ltb (length body) 2
    then []
    else if leb size 0 || ltb (length rest) size
    then []
    else take size rest ∷ more

-- The end of the FU-A case.
unfoldable pub fu_a_end : H264Depacketizer → ℕ → H264Depacketizer × List Bytes
fu_a_end d end_bit =
    if end_bit == 1 && d.fu_active
    then (record d { fu_active = false; fu_buf = [] }, d.fu_buf ∷ [])
    else (d, [])

-- The FU-A case.
unfoldable pub fu_a : H264Depacketizer → Bytes → H264Depacketizer × List Bytes
fu_a d payload =
    let nri = f_bit_and_nri (byte_at payload 0) in
    let header = byte_at payload 1 in
    let body = drop 2 payload in
    if ltb (length payload) 2
    then (record d { fu_active = false }, [])
    else if bit header 7 == 1
    then fu_a_end
        (record {
          fu_buf = (nri + type_bits header) ∷ body;
          fu_type = type_bits header;
          fu_nri_f = nri;
          fu_active = true;
        })
        (bit header 6)
    else if d.fu_active
    then (if ltb max_fu_reassembly_bytes (length d.fu_buf + length body)
        then (record d { fu_active = false; fu_buf = [] }, [])
        else fu_a_end (record d { fu_buf = d.fu_buf ++ body }) (bit header 6))
    else (d, [])

-- `Depacketize`
unfoldable pub depacketize : H264Depacketizer → Bytes → H264Depacketizer × List Bytes
depacketize d payload =
    let nalu_type = type_bits (byte_at payload 0) in
    if ltb (length payload) 1
    then (d, [])
    else if leb 1 nalu_type && leb nalu_type 23
    then (record d { fu_active = false }, payload ∷ [])
    else if nalu_type == stap_a_type
    then (record d { fu_active = false }, stap_a_units (length payload) (drop 1 payload))
    else if nalu_type == fu_a_type
    then fu_a d payload
    else (record d { fu_active = false }, [])
