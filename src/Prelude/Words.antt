-- ===== src/Prelude/Words.antt =====
-- Unsigned 64-bit words (`uint64_t`, and `cy_uint` of the same width), and bit flags of an `int`.
use Prim.Native.Nat.{ℕ, ◌+◌, ◌-◌, ◌/◌, ◌%◌, ◌^◌}
use mathlib.Core.Bool.{Bool}
use boom_par.Prelude.Tests.{◌==◌, if◌then◌else◌}

abbrev pub word_size : ℕ
word_size = 2 ^ 64

-- a + b and a - b of `uint64_t`.
abbrev pub add64 : ℕ → ℕ → ℕ
add64 a b = (a + b) % word_size

abbrev pub sub64 : ℕ → ℕ → ℕ
sub64 a b = (a + word_size - b) % word_size

-- A test of flags, `v & (1 << k)`, and `v |= (1 << k)`, where `flag` is the numeral `1 << k`.
unfoldable pub has_flag : ℕ → ℕ → Bool
has_flag v flag = v / flag % 2 == 1

unfoldable pub set_flag : ℕ → ℕ → ℕ
unfolding has_flag
set_flag v flag = if has_flag v flag then v else v + flag
