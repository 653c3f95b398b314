-- ===== src/Base/Words.antt =====
-- Machine words as native numbers, and byte strings. A byte slice is a list of numbers below 256;
-- a w-bit integer is a number below 2 ^ w, and its arithmetic wraps by `%`.
use Prim.Native.Nat.{ℕ, zero, suc, ◌+◌, ◌-◌, ◌*◌, ◌/◌, ◌%◌, ◌^◌, ◌<◌}
use mathlib.Core.List.{List, [], ◌∷◌}
use native.Mathlib.Omega.{arith}
use meowcaller.Base.Lists.{get_or, take, drop, All}

abbrev pub Bytes : Type 0
Bytes = List ℕ

abbrev pub IsU8 : ℕ → Type 0
IsU8 x = x < 256

abbrev pub IsU16 : ℕ → Type 0
IsU16 x = x < 65536

abbrev pub IsU32 : ℕ → Type 0
IsU32 x = x < 4294967296

abbrev pub IsU64 : ℕ → Type 0
IsU64 x = x < 18446744073709551616

abbrev pub IsBytes : Bytes → Type 0
IsBytes = All IsU8

-- The conversions `uint8(x)`, `uint16(x)`, `uint32(x)`, `uint64(x)`.
abbrev pub u8 : ℕ → ℕ
u8 x = x % 256

abbrev pub u16 : ℕ → ℕ
u16 x = x % 65536

abbrev pub u32 : ℕ → ℕ
u32 x = x % 4294967296

abbrev pub u64 : ℕ → ℕ
u64 x = x % 18446744073709551616

-- Unsigned subtraction wraps: `-` on ℕ stops at 0, so the modulus is added first.
abbrev pub sub16 : ℕ → ℕ → ℕ
sub16 a b = (a + 65536 - b) % 65536

abbrev pub sub32 : ℕ → ℕ → ℕ
sub32 a b = (a + 4294967296 - b) % 4294967296

-- `x >> k`, `x << k` before the wrap, `x & (2 ^ k - 1)`, and bit `k` of `x`.
abbrev pub shr : ℕ → ℕ → ℕ
shr x k = x / 2 ^ k

abbrev pub shl : ℕ → ℕ → ℕ
shl x k = x * 2 ^ k

abbrev pub low_bits : ℕ → ℕ → ℕ
low_bits x k = x % 2 ^ k

abbrev pub bit : ℕ → ℕ → ℕ
bit x k = x / 2 ^ k % 2

-- `data[i]`. Go panics out of range; the model's callers read behind the length checks of the code.
abbrev pub byte_at : Bytes → ℕ → ℕ
byte_at xs i = get_or xs i 0

-- `data[lo:hi]`
abbrev pub slice : ℕ → ℕ → Bytes → Bytes
slice lo hi xs = take (hi - lo) (drop lo xs)

-- `binary.BigEndian.AppendUint16` and its like, as the bytes that are appended or stored.
abbrev pub be16 : ℕ → Bytes
be16 x = x / 256 % 256 ∷ x % 256 ∷ []

abbrev pub be32 : ℕ → Bytes
be32 x = x / 16777216 % 256 ∷ x / 65536 % 256 ∷ x / 256 % 256 ∷ x % 256 ∷ []

-- `binary.BigEndian.Uint16` and `Uint32` of the bytes from an offset on.
abbrev pub read_be16 : Bytes → ℕ → ℕ
read_be16 xs i = byte_at xs i * 256 + byte_at xs (i + 1)

abbrev pub read_be32 : Bytes → ℕ → ℕ
read_be32 xs i =
    byte_at xs i * 16777216
    + byte_at xs (i + 1) * 65536
    + byte_at xs (i + 2) * 256
    + byte_at xs (i + 3)

pub be16-IsBytes : (x : ℕ) → IsBytes (be16 x)
be16-IsBytes x = omega arith

pub be32-IsBytes : (x : ℕ) → IsBytes (be32 x)
be32-IsBytes x = omega arith

pub byte_at-IsU8 : (i : ℕ) (xs : Bytes) → IsBytes xs → IsU8 (byte_at xs i)
byte_at-IsU8 i [] h = omega arith
byte_at-IsU8 zero (x ∷ xs) (hx, h) = hx
byte_at-IsU8 (suc i) (x ∷ xs) (hx, h) = byte_at-IsU8 i xs h
