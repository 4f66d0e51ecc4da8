-- ===== src/Prelude/Words.antt =====
-- Machine words: a `u64` is a native number below 2 ^ 64.
use Prim.Native.Nat.{ℕ, ◌+◌, ◌%◌}
use mathlib.Core.Option.{Option, none, some}
use uflow.Prelude.Tests.{ltb, if◌then◌else◌}

abbrev pub u64_mod : ℕ
u64_mod = 0x1_0000_0000_0000_0000

-- `a.checked_add(b)` on `u64`.
abbrev pub checked_add : ℕ → ℕ → Option ℕ
checked_add a b = if ltb (a + b) u64_mod then some (a + b) else none

-- `n += 1` on a `u64` counter in a release build.
abbrev pub wrapping_inc : ℕ → ℕ
wrapping_inc n = (n + 1) % u64_mod
