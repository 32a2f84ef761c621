-- ===== src/Base/Words.antt =====
-- Rust's `to_be_bytes`, `from_be_bytes`, `to_le_bytes` and `from_le_bytes` for `u32` and `u64`.
use localtrans.Base.Lists.{Bytes}
use Prim.Native.Nat.{ℕ, ◌+◌, ◌*◌, ◌/◌, ◌%◌, ◌^◌, ◌<◌}
use mathlib.Core.Path.{◌≡◌}
use mathlib.Core.List.{[], ◌∷◌}
use native.Mathlib.Omega.{arith}

unfoldable pub u32_to_be_bytes : ℕ → Bytes
u32_to_be_bytes n = (n / 2 ^ 24 % 256) ∷ (n / 2 ^ 16 % 256) ∷ (n / 2 ^ 8 % 256) ∷ (n % 256) ∷ []

unfoldable pub u32_from_be_bytes : ℕ → ℕ → ℕ → ℕ → ℕ
u32_from_be_bytes a b c d = a * 2 ^ 24 + b * 2 ^ 16 + c * 2 ^ 8 + d

unfoldable pub u32_to_le_bytes : ℕ → Bytes
u32_to_le_bytes n = (n % 256) ∷ (n / 2 ^ 8 % 256) ∷ (n / 2 ^ 16 % 256) ∷ (n / 2 ^ 24 % 256) ∷ []

pub u32_be_roundtrip :
    (n : ℕ)
    → n < 2 ^ 32
    → u32_from_be_bytes (n / 2 ^ 24 % 256) (n / 2 ^ 16 % 256) (n / 2 ^ 8 % 256) (n % 256) ≡ n
unfolding u32_from_be_bytes
u32_be_roundtrip n h = omega arith

-- A `u64` as its low and high halves.
unfoldable pub u64_to_le_bytes : ℕ → Bytes
u64_to_le_bytes n =
    (n % 256)
    ∷ (n / 2 ^ 8 % 256)
    ∷ (n / 2 ^ 16 % 256)
    ∷ (n / 2 ^ 24 % 256)
    ∷ (n / 2 ^ 32 % 256)
    ∷ (n / 2 ^ 40 % 256)
    ∷ (n / 2 ^ 48 % 256)
    ∷ (n / 2 ^ 56 % 256)
    ∷ []

unfoldable pub u64_from_le_bytes : ℕ → ℕ → ℕ → ℕ → ℕ → ℕ → ℕ → ℕ → ℕ
u64_from_le_bytes a b c d e f g h =
    a + b * 2 ^ 8 + c * 2 ^ 16 + d * 2 ^ 24 + e * 2 ^ 32 + f * 2 ^ 40 + g * 2 ^ 48 + h * 2 ^ 56

pub u64_le_roundtrip :
    (n : ℕ)
    → n < 2 ^ 64
    → u64_from_le_bytes
        (n % 256)
        (n / 2 ^ 8 % 256)
        (n / 2 ^ 16 % 256)
        (n / 2 ^ 24 % 256)
        (n / 2 ^ 32 % 256)
        (n / 2 ^ 40 % 256)
        (n / 2 ^ 48 % 256)
        (n / 2 ^ 56 % 256)
      ≡ n
unfolding u64_from_le_bytes
u64_le_roundtrip n h = omega arith

unfoldable pub u32_from_le_bytes : ℕ → ℕ → ℕ → ℕ → ℕ
u32_from_le_bytes a b c d = a + b * 2 ^ 8 + c * 2 ^ 16 + d * 2 ^ 24

pub u32_le_roundtrip :
    (n : ℕ)
    → n < 2 ^ 32
    → u32_from_le_bytes (n % 256) (n / 2 ^ 8 % 256) (n / 2 ^ 16 % 256) (n / 2 ^ 24 % 256) ≡ n
unfolding u32_from_le_bytes
u32_le_roundtrip n h = omega arith
