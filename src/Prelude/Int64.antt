-- ===== src/Prelude/Int64.antt =====
-- Go's int64: integers whose arithmetic wraps modulo 2 ^ 64.
use Prim.Native.Nat.{ℕ, ◌+◌, ◌-◌, ◌%◌, ◌^◌}
use mathlib.Core.Path.{◌≡◌, refl}
use secure_ledger.Prelude.Tests.{ltb, if◌then◌else◌}
use secure_ledger.Prelude.Int.{ℤ, pos, negsuc, pos_part, neg_part, ◌+ℤ◌, ◌-ℤ◌, ◌≤ℤ◌}
use native.Mathlib.Omega.{arith}

-- `1<<63 - 1` and `-1<<63`.
abbrev pub max_int64 : ℤ
max_int64 = pos (2 ^ 63 - 1)

abbrev pub min_int64 : ℤ
min_int64 = negsuc (2 ^ 63 - 1)

-- The integers that an int64 holds.
abbrev pub IsInt64 : ℤ → Type 0
IsInt64 z = (min_int64 ≤ℤ z) × (z ≤ℤ max_int64)

-- The 64 bits of an integer, and the int64 that 64 bits stand for.
bits64 : ℤ → ℕ
bits64 z = (pos_part z + (2 ^ 64 - neg_part z % 2 ^ 64)) % 2 ^ 64

signed64 : ℕ → ℤ
signed64 w = if ltb w (2 ^ 63) then pos w else negsuc (2 ^ 64 - w - 1)

unfoldable pub wrap64 : ℤ → ℤ
unfolding bits64 signed64
wrap64 z = signed64 (bits64 z)

unfoldable pub add64 : ℤ → ℤ → ℤ
add64 a b = wrap64 (a +ℤ b)

unfoldable pub sub64 : ℤ → ℤ → ℤ
sub64 a b = wrap64 (a -ℤ b)

unfoldable pub neg64 : ℤ → ℤ
neg64 a = wrap64 (pos 0 -ℤ a)

signed64-IsInt64 : (w : ℕ) → IsInt64 (signed64 (w % 2 ^ 64))
unfolding signed64
signed64-IsInt64 w = ground arith

pub wrap64-IsInt64 : (z : ℤ) → IsInt64 (wrap64 z)
unfolding wrap64
wrap64-IsInt64 z = signed64-IsInt64 (pos_part z + (2 ^ 64 - neg_part z % 2 ^ 64))

-- Wrapping changes nothing that fits.
pub wrap64_lem : (z : ℤ) → IsInt64 z → wrap64 z ≡ z
unfolding wrap64
wrap64_lem (pos n) h = ground arith
wrap64_lem (negsuc n) h = ground arith

pub add64_lem : (a b : ℤ) → IsInt64 (a +ℤ b) → add64 a b ≡ a +ℤ b
unfolding add64
add64_lem a b h = wrap64_lem (a +ℤ b) h

pub sub64_lem : (a b : ℤ) → IsInt64 (a -ℤ b) → sub64 a b ≡ a -ℤ b
unfolding sub64
sub64_lem a b h = wrap64_lem (a -ℤ b) h

pub neg64_lem : (a : ℤ) → IsInt64 (pos 0 -ℤ a) → neg64 a ≡ pos 0 -ℤ a
unfolding neg64
neg64_lem a h = wrap64_lem (pos 0 -ℤ a) h

wraps : add64 max_int64 (pos 1) ≡ min_int64
unfolding add64 wrap64 ◌+ℤ◌
wraps = refl
