-- ===== src/Base/Bits.antt =====
-- Single bits of a flag word. The Go code tests `x & (1 << k) != 0` and sets `x |= 1 << k`; here
-- the bit is read by division and set by addition where it is clear.
use Prim.Native.Nat.{ℕ, ◌+◌, ◌/◌, ◌%◌}
use mathlib.Core.Bool.{Bool}
use pointsub.Base.Tests.{◌==◌, if◌then◌else◌}

abbrev pub has_flag : ℕ → ℕ → Bool
has_flag x m = x / m % 2 == 1

abbrev pub set_flag : ℕ → ℕ → ℕ
set_flag x m = if has_flag x m then x else x + m
