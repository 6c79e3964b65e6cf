-- ===== src/Common/Words.antt =====
-- Rust's machine integers: `u64` and `u32` as numbers in range, with the checked, saturating and
-- wrapping operations of the standard library written out.
use Prim.Native.Nat.{ℕ, ◌+◌, ◌-◌, ◌*◌, ◌<◌}
use mathlib.Core.Path.{◌≡◌}
use mathlib.Core.Option.{Option, none, some}
use native.Mathlib.Omega.{arith}
use pronk.Common.Tests.{leb, if◌then◌else◌}

abbrev pub u64_max : ℕ
u64_max = 18446744073709551615

abbrev pub u32_max : ℕ
u32_max = 4294967295

-- An addition, or a product, that gives `limit` where the exact result is above it.
abbrev pub saturate : ℕ → ℕ → ℕ
saturate limit n = if leb n limit then n else limit

-- `u64::saturating_add`.
abbrev pub saturating_add : ℕ → ℕ → ℕ
saturating_add a b = saturate u64_max (a + b)

-- `u64::saturating_mul`.
abbrev pub saturating_mul : ℕ → ℕ → ℕ
saturating_mul a b = saturate u64_max (a * b)

-- An addition that fails above `limit`.
abbrev pub checked_below : ℕ → ℕ → Option ℕ
checked_below limit n = if leb n limit then some n else none

-- `u64::checked_add`.
abbrev pub checked_add : ℕ → ℕ → Option ℕ
checked_add a b = checked_below u64_max (a + b)

pub checked_add_room : {n : ℕ} → n < u64_max → checked_add n 1 ≡ some (n + 1)
checked_add_room h = ground arith

-- `u64::checked_sub`.
abbrev pub checked_sub : ℕ → ℕ → Option ℕ
checked_sub a b = if leb b a then some (a - b) else none

-- A `Duration` is its number of nanoseconds, at most `u64::MAX` seconds and 999,999,999 ns.
abbrev pub duration_max : ℕ
duration_max = 18446744073709551615999999999

abbrev pub millis : ℕ → ℕ
millis n = 1000000 * n
