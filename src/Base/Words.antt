-- ===== src/Base/Words.antt =====
-- Machine integers of the ATmega1284P as bit patterns: `int` and `size_t` have 16 bits, `long` and
-- `uint32_t` have 32. A signed value is kept as its pattern.
use Prim.Native.Nat.{ℕ, ◌+◌, ◌-◌, ◌%◌, ◌^◌}
use mathlib.Core.Bool.{Bool}
use sag_c8y_nb_iot_demo.Base.Tests.{leb}

abbrev pub wrap8 : ℕ → ℕ
wrap8 n = n % 2 ^ 8

abbrev pub wrap16 : ℕ → ℕ
wrap16 n = n % 2 ^ 16

abbrev pub wrap32 : ℕ → ℕ
wrap32 n = n % 2 ^ 32

-- `a - b` in uint32_t; `-` on ℕ is truncated, so the modulus is added first.
abbrev pub sub32 : ℕ → ℕ → ℕ
sub32 a b = (a + 2 ^ 32 - b) % 2 ^ 32

-- `-n` as an int.
abbrev pub neg16 : ℕ → ℕ
neg16 n = wrap16 (2 ^ 16 - wrap16 n)

-- The sign of an int.
abbrev pub is_neg16 : ℕ → Bool
is_neg16 w = leb (2 ^ 15) w

-- `a >= b` for two int8_t values.
abbrev pub ge_s8 : ℕ → ℕ → Bool
ge_s8 a b = leb ((b + 128) % 256) ((a + 128) % 256)
