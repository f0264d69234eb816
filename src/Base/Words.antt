-- ===== src/Base/Words.antt =====
-- Rust's `as` conversions between machine integers, in two's complement. `usize` has 64 bits.
use Prim.Native.Nat.{ℕ, suc, ◌+◌, ◌-◌, ◌%◌, ◌^◌, ◌≤◌, ◌<◌}
use mathlib.Core.Path.{◌≡◌}
use native.Mathlib.Omega.{arith}
use blockscape.Base.Tests.{ltb, leb, if◌then◌else◌}
use blockscape.Base.Int.{ℤ, pos, negsuc, pos_part, neg_part, ◌+ℤ◌, ◌-ℤ◌}

-- The integer that a byte stands for as an `i8`.
signed8 : ℕ → ℤ
signed8 b = if ltb b 128 then pos b else negsuc (255 - b)

-- `n as i8` for a `usize`.
unfoldable pub as_i8 : ℕ → ℤ
unfolding signed8
as_i8 n = signed8 (n % 256)

-- A sum of two `i8`, which wraps.
unfoldable pub add_i8 : ℤ → ℤ → ℤ
unfolding signed8 ◌+ℤ◌
add_i8 a b = let s = a +ℤ b in signed8 ((pos_part s + (256 - neg_part s % 256)) % 256)

-- `z as usize` for a signed integer, which is extended by its sign.
unfoldable pub as_usize : ℤ → ℕ
as_usize (pos n) = n
as_usize (negsuc n) = 2 ^ 64 - 1 - n % 2 ^ 64

-- On the small numbers of a board the conversions go through unchanged, and below zero they wrap
-- to the top of the range.
pub as_usize_up : (r k : ℕ) → r ≤ 7 → k ≤ 2 → as_usize (add_i8 (as_i8 r) (pos k)) ≡ r + k
unfolding as_usize add_i8 as_i8
as_usize_up r k h g = ground arith

pub as_usize_down :
    (r k : ℕ)
    → r ≤ 7
    → k ≤ 1
    → as_usize (add_i8 (as_i8 r) (negsuc k))
      ≡ (if leb (suc k) r then r - suc k else 2 ^ 64 - (suc k - r))
unfolding as_usize add_i8 as_i8
as_usize_down r k h g = ground arith

-- The integer that 32 bits stand for as an `i32`.
signed32 : ℕ → ℤ
signed32 b = if ltb b (2 ^ 31) then pos b else negsuc (2 ^ 32 - 1 - b)

-- An integer that wraps to an `i32`, as the result of a sum, a difference or a conversion.
unfoldable pub wrap_i32 : ℤ → ℤ
unfolding signed32
wrap_i32 z = signed32 ((pos_part z + (2 ^ 32 - neg_part z % 2 ^ 32)) % 2 ^ 32)

-- `z as u32`
unfoldable pub as_u32 : ℤ → ℕ
as_u32 z = (pos_part z + (2 ^ 32 - neg_part z % 2 ^ 32)) % 2 ^ 32

-- An integer that an `i32` holds.
pub record IsI32 (z : ℤ) : Type 0 where
  pub top : pos_part z < 2 ^ 31
  pub bottom : neg_part z ≤ 2 ^ 31

pub wrap_i32_self : (z : ℤ) → IsI32 z → wrap_i32 z ≡ z
unfolding wrap_i32
wrap_i32_self (pos n) h = ground arith
wrap_i32_self (negsuc n) h = ground arith

-- The integer that 64 bits stand for as an `i64`.
signed64 : ℕ → ℤ
signed64 b = if ltb b (2 ^ 63) then pos b else negsuc (2 ^ 64 - 1 - b)

-- An integer that wraps to an `i64`.
wrap_i64 : ℤ → ℤ
unfolding signed64
wrap_i64 z = signed64 ((pos_part z + (2 ^ 64 - neg_part z % 2 ^ 64)) % 2 ^ 64)

-- `n as i64` for a `u64`.
unfoldable pub as_i64 : ℕ → ℤ
unfolding wrap_i64
as_i64 n = wrap_i64 (pos n)

-- A sum of two `i64` and the opposite of one, which wrap.
unfoldable pub add_i64 : ℤ → ℤ → ℤ
unfolding wrap_i64
add_i64 a b = wrap_i64 (a +ℤ b)

unfoldable pub neg_i64 : ℤ → ℤ
unfolding wrap_i64
neg_i64 a = wrap_i64 (pos 0 -ℤ a)
