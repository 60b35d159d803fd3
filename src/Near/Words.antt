-- ===== src/Near/Words.antt =====
-- Unsigned machine words: `u64` and `u32` arithmetic as the release build does it, modulo 2 ^ w.
use i_am_human.Base.{ℕ, ◌+◌, ◌*◌, ◌-◌, ◌%◌, ◌≤◌, ◌≡◌, arith}

abbrev pub u64_mod : ℕ
u64_mod = 18446744073709551616

abbrev pub u32_mod : ℕ
u32_mod = 4294967296

abbrev pub add_u64 : ℕ → ℕ → ℕ
add_u64 a b = (a + b) % u64_mod

abbrev pub sub_u64 : ℕ → ℕ → ℕ
sub_u64 a b = (a + u64_mod - b % u64_mod) % u64_mod

abbrev pub mul_u64 : ℕ → ℕ → ℕ
mul_u64 a b = a * b % u64_mod

abbrev pub u128_mod : ℕ
u128_mod = 340282366920938463463374607431768211456

abbrev pub mul_u128 : ℕ → ℕ → ℕ
mul_u128 a b = a * b % u128_mod

abbrev pub sub_u128 : ℕ → ℕ → ℕ
sub_u128 a b = (a + u128_mod - b % u128_mod) % u128_mod

abbrev pub add_u32 : ℕ → ℕ → ℕ
add_u32 a b = (a + b) % u32_mod

-- A counter that is right modulo 2 ^ 64 stays so.
pub add_u64_mod : (a b : ℕ) → add_u64 (a % u64_mod) b ≡ (a + b) % u64_mod
add_u64_mod a b = omega arith

pub sub_u64_mod : (a b : ℕ) → b ≤ a → sub_u64 (a % u64_mod) b ≡ (a - b) % u64_mod
sub_u64_mod a b h = omega arith
