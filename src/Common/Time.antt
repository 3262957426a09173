-- ===== src/Common/Time.antt =====
-- Points in time are numbers of milliseconds, as `QDateTime` counts them.
use Prim.Native.Nat.{ℕ, ◌+◌, ◌-◌, ◌*◌, ◌/◌}
use mathlib.Core.Bool.{Bool, false}
use chatripper.Common.Tests.{leb, ltb, if◌then◌else◌}

-- Signed numbers; `negsuc n` is -(n + 1).
pub data ℤ : Type 0 where
  pos : ℕ → ℤ
  negsuc : ℕ → ℤ

abbrev neg : ℕ → ℤ
neg n = if ltb 0 n then negsuc (n - 1) else pos 0

-- `from.secsTo(to)`: whole seconds, rounded towards zero.
abbrev pub secs_to : ℕ → ℕ → ℤ
secs_to from to = if leb from to then pos ((to - from) / 1000) else neg ((from - to) / 1000)

abbrev pub add_secs : ℕ → ℕ → ℕ
add_secs t seconds = t + seconds * 1000

-- `z >= n`
abbrev pub at_least : ℤ → ℕ → Bool
at_least (pos m) n = leb n m
at_least (negsuc m) n = false
