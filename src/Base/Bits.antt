-- ===== src/Base/Bits.antt =====
-- Facts about `bit_xor` on bytes: each is a Boolean that is evaluated at every byte.
use Prim.Native.Nat.{ℕ, zero, suc, ◌<◌, bit_xor}
use mathlib.Core.Path.{◌≡◌, refl, sym, ap, ◌∙◌}
use mathlib.Core.Bool.{Bool, true, ◌&&◌}
use native.Mathlib.Omega.{arith}
use meowcaller.Base.Tests.{◌==◌, ==_iff, ltb, ltb→lt}

-- Whether a test passes at each number below a bound.
unfoldable pub passes : (ℕ → Bool) → ℕ → Bool
passes test zero = true
passes test (suc bound) = passes test bound && test bound

pub passes_at :
    (test : ℕ → Bool) (bound i : ℕ) → i < bound → passes test bound ≡ true → test i ≡ true
unfolding passes
passes_at test zero i small e = absurd (omega arith)
passes_at test (suc bound) i small e = ground (arith, passes_at test bound i)

-- The same for two bytes.
abbrev on_bytes : (ℕ → ℕ → Bool) → Bool
on_bytes test = passes (λ a. passes (test a) 256) 256

on_bytes_at :
    (test : ℕ → ℕ → Bool) (a b : ℕ) → a < 256 → b < 256 → on_bytes test ≡ true → test a b ≡ true
on_bytes_at test a b ha hb e =
    passes_at (test a) 256 b hb (passes_at (λ x. passes (test x) 256) 256 a ha e)

abbrev undone_right : ℕ → ℕ → Bool
undone_right a b = bit_xor (bit_xor a b) b == a

abbrev undone_left : ℕ → ℕ → Bool
undone_left a b = bit_xor (bit_xor a b) a == b

abbrev stays_byte : ℕ → ℕ → Bool
stays_byte a b = ltb (bit_xor a b) 256

all_undone_right : on_bytes undone_right ≡ true
unfolding passes
all_undone_right = refl

all_undone_left : on_bytes undone_left ≡ true
unfolding passes
all_undone_left = refl

all_stay_bytes : on_bytes stays_byte ≡ true
unfolding passes
all_stay_bytes = refl

-- XOR with a byte undoes itself.
pub xor_twice : (a b : ℕ) → a < 256 → b < 256 → bit_xor (bit_xor a b) b ≡ a
xor_twice a b ha hb = (==_iff _ a).0 (on_bytes_at undone_right a b ha hb all_undone_right)

xor_back : (a b : ℕ) → a < 256 → b < 256 → bit_xor (bit_xor a b) a ≡ b
xor_back a b ha hb = (==_iff _ b).0 (on_bytes_at undone_left a b ha hb all_undone_left)

-- XOR with a fixed byte on the left is injective.
pub xor_injective :
    (a b b' : ℕ) → a < 256 → b < 256 → b' < 256 → bit_xor a b ≡ bit_xor a b' → b ≡ b'
xor_injective a b b' ha hb hb' e =
    sym (xor_back a b ha hb) ∙ ap (λ (t : ℕ). bit_xor t a) e ∙ xor_back a b' ha hb'

pub xor-IsByte : (a b : ℕ) → a < 256 → b < 256 → bit_xor a b < 256
xor-IsByte a b ha hb = ltb→lt _ _ (on_bytes_at stays_byte a b ha hb all_stay_bytes)
