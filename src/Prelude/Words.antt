-- ===== src/Prelude/Words.antt =====
-- Rust's fixed-width integers. A `u64` is a number below `u64_mod` and its arithmetic wraps, as in a
-- release build. An `i32` is its bit pattern, a number below `u32_mod`.
use Prim.Native.Nat.{ℕ, ◌+◌, ◌-◌, ◌*◌, ◌%◌, ◌^◌}
use mathlib.Core.Bool.{Bool}
use pgfs.Prelude.Tests.{leb, if◌then◌else◌}

abbrev pub u64_mod : ℕ
u64_mod = 2 ^ 64

abbrev pub u32_mod : ℕ
u32_mod = 2 ^ 32

abbrev pub i32_max : ℕ
i32_max = 2 ^ 31 - 1

abbrev pub add64 : ℕ → ℕ → ℕ
add64 a b = (a + b) % u64_mod

abbrev pub sub64 : ℕ → ℕ → ℕ
sub64 a b = (a + u64_mod - b) % u64_mod

abbrev pub mul64 : ℕ → ℕ → ℕ
mul64 a b = a * b % u64_mod

-- `x as i32` of a `u64`.
abbrev pub as_i32 : ℕ → ℕ
as_i32 x = x % u32_mod

-- `b as u64` of an `i32`: the sign is extended.
abbrev pub i32_as_u64 : ℕ → ℕ
i32_as_u64 b = if leb b i32_max then b else b + (u64_mod - u32_mod)

-- The order of two `i32`s, on their bit patterns.
abbrev pub i32_leb : ℕ → ℕ → Bool
i32_leb a b = leb ((a + 2 ^ 31) % u32_mod) ((b + 2 ^ 31) % u32_mod)

-- The number of rounds of `for b in a..=b` over `i32`.
abbrev pub i32_rounds : ℕ → ℕ → ℕ
i32_rounds a b = if i32_leb a b then (b + u32_mod - a) % u32_mod + 1 else 0
