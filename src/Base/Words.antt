-- ===== src/Base/Words.antt =====
-- Words of 32 bits as numbers, with what C computes on them as `unsigned` and as `int`.
use Prim.Native.Nat.{ℕ, ◌+◌, ◌-◌, ◌*◌, ◌%◌, ◌^◌, ◌<◌}
use mathlib.Core.Bool.{Bool, not}
use g.Base.Tests.{◌==◌, ltb, if◌then◌else◌}
use g.Base.Int.{ℤ, pos, negsuc}

abbrev pub IsWord : ℕ → Type 0
IsWord w = w < 2 ^ 32

-- The result of a computation, cut to 32 bits.
abbrev pub u32 : ℕ → ℕ
u32 n = n % 2 ^ 32

-- `a - b`
abbrev pub sub32 : ℕ → ℕ → ℕ
sub32 a b = (a + 2 ^ 32 - b) % 2 ^ 32

-- `~w`
abbrev pub complement : ℕ → ℕ
complement w = 2 ^ 32 - 1 - w

-- `w << k`
abbrev pub shift_left : ℕ → ℕ → ℕ
shift_left w k = w * 2 ^ k % 2 ^ 32

-- The number that the pattern stands for as an `int`.
abbrev pub to_int : ℕ → ℤ
to_int w = if ltb w (2 ^ 31) then pos w else negsuc (2 ^ 32 - 1 - w)

-- A number as a condition.
abbrev pub truth : ℕ → Bool
truth n = not (n == 0)
