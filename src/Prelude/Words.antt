-- ===== src/Prelude/Words.antt =====
-- uint64 arithmetic on native numbers, and math/bits on it.
pub mod Digits
pub mod Lengths
pub mod Masks
use Prim.Native.Nat.{ℕ, zero, suc, ◌+◌, ◌-◌, ◌*◌, ◌/◌, ◌%◌, ◌^◌, ◌≤◌, ◌<◌, bit_and}
use mathlib.Core.Bool.{Bool, true, false}
use cactus.Prelude.Tests.{◌==◌, ltb, if◌then◌else◌}

abbrev pub u64 : ℕ → ℕ
u64 n = n % 2 ^ 64

-- `a - b` on uint64
abbrev pub sub64 : ℕ → ℕ → ℕ
sub64 a b = if ltb a b then a + 2 ^ 64 - b else a - b

-- `^a` on uint64
abbrev pub not64 : ℕ → ℕ
not64 a = 2 ^ 64 - 1 - a

-- `uint64(1) << s`: zero for s ≥ 64
abbrev pub shl_one : ℕ → ℕ
shl_one s = if ltb s 64 then 2 ^ s else 0

-- bits.Len64 looks at 64 bits at most
unfoldable pub len_fuel : ℕ → ℕ → ℕ
len_fuel zero n = 0
len_fuel (suc f) n = if n == 0 then 0 else suc (len_fuel f (n / 2))

-- bits.Len64
unfoldable pub len64 : ℕ → ℕ
unfolding len_fuel
len64 n = len_fuel 64 n

-- bits.OnesCount64
pub ones_fuel : ℕ → ℕ → ℕ
ones_fuel zero n = 0
ones_fuel (suc f) n = n % 2 + ones_fuel f (n / 2)

unfoldable pub ones_count64 : ℕ → ℕ
unfolding ones_fuel
ones_count64 n = ones_fuel 64 n
