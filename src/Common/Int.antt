-- ===== src/Common/Int.antt =====
-- Signed 64-bit seconds: chrono's `num_seconds`, `unsigned_abs`, and the cast `as i64`.
use Prim.Native.Nat.{ℕ, suc, ◌-◌, ◌%◌, ◌^◌, ◌≤◌, ◌<◌}
use mathlib.Core.Path.{◌≡◌}
use mathlib.Core.Bool.{Bool, true, false}
use native.Mathlib.Omega.{arith}
use ldp_protocol.Common.Tests.{ltb, if◌then◌else◌}

-- `negsuc n` is -(n + 1).
pub data ℤ : Type 0 where
  pos : ℕ → ℤ
  negsuc : ℕ → ℤ

-- i64::unsigned_abs
abbrev pub unsigned_abs : ℤ → ℕ
unsigned_abs (pos n) = n
unsigned_abs (negsuc n) = suc n

-- `<` on i64
abbrev pub ltb_ℤ : ℤ → ℤ → Bool
ltb_ℤ (pos a) (pos b) = ltb a b
ltb_ℤ (pos a) (negsuc b) = false
ltb_ℤ (negsuc a) (pos b) = true
ltb_ℤ (negsuc a) (negsuc b) = ltb b a

-- `x as i64` for a u64: the same 64 bits, read as two's complement.
unfoldable pub as_i64 : ℕ → ℤ
as_i64 n =
    let bits = n % 2 ^ 64 in if ltb bits (2 ^ 63) then pos bits else negsuc (2 ^ 64 - 1 - bits)

-- Below 2^63 the cast keeps the value.
pub as_i64_small : (n : ℕ) → n < 2 ^ 63 → as_i64 n ≡ pos n
unfolding as_i64
as_i64_small n h = ground arith

-- From 2^63 on the cast of a u64 is negative.
pub as_i64_large : (n : ℕ) → 2 ^ 63 ≤ n → n < 2 ^ 64 → as_i64 n ≡ negsuc (2 ^ 64 - 1 - n)
unfolding as_i64
as_i64_large n h k = ground arith
