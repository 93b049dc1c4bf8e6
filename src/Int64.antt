-- ===== src/Int64.antt =====
-- Go's `int64` as its bit pattern, a number below 2 ^ 64: arithmetic wraps around, and orders are
-- those of the signed values.
use nostrhost_nsite.Prelude.{ℕ, ◌+◌, ◌-◌, ◌%◌, ◌^◌, ◌≤◌, ◌<◌, ◌≡◌, Bool, arith, leb, ltb}

unfoldable pub add64 : ℕ → ℕ → ℕ
add64 a b = (a + b) % 2 ^ 64

unfoldable pub sub64 : ℕ → ℕ → ℕ
sub64 a b = (a + 2 ^ 64 - b) % 2 ^ 64

-- signed `a <= b` and `a < b`
unfoldable pub leb64 : ℕ → ℕ → Bool
leb64 a b = leb ((a + 2 ^ 63) % 2 ^ 64) ((b + 2 ^ 63) % 2 ^ 64)

unfoldable pub ltb64 : ℕ → ℕ → Bool
ltb64 a b = ltb ((a + 2 ^ 63) % 2 ^ 64) ((b + 2 ^ 63) % 2 ^ 64)

-- The bit pattern of a number that is not negative.
abbrev pub IsNat64 : ℕ → Type 0
IsNat64 a = a < 2 ^ 63

pub add64_exact : (a b : ℕ) → IsNat64 (a + b) → add64 a b ≡ a + b
unfolding add64
add64_exact a b h = omega arith

pub sub64_exact : (a b : ℕ) → IsNat64 a → b ≤ a → sub64 a b ≡ a - b
unfolding sub64
sub64_exact a b h le = omega arith

pub leb64_exact : (a b : ℕ) → IsNat64 a → IsNat64 b → leb64 a b ≡ leb a b
unfolding leb64
leb64_exact a b h k = ground arith

pub ltb64_exact : (a b : ℕ) → IsNat64 a → IsNat64 b → ltb64 a b ≡ ltb a b
unfolding ltb64
ltb64_exact a b h k = ground arith
