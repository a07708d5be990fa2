-- ===== src/Prelude/Flags.antt =====
-- The laws of the bit flags 1 << 0 to 1 << 3.
use Prim.Native.Nat.{ℕ}
use mathlib.Core.Path.{◌≡◌, refl}
use mathlib.Core.Bool.{false, ◌||◌}
use native.Mathlib.Omega.{arith}
use boom_par.Prelude.Tests.{◌==◌}
use boom_par.Prelude.Words.{has_flag, set_flag}

pub data Flag : Type 0 where
  bit_0 bit_1 bit_2 bit_3 : Flag

abbrev pub value : Flag → ℕ
value bit_0 = 1
value bit_1 = 2
value bit_2 = 4
value bit_3 = 8

pub has_flag-zero : (f : Flag) → has_flag 0 (value f) ≡ false
unfolding has_flag
has_flag-zero bit_0 = refl
has_flag-zero bit_1 = refl
has_flag-zero bit_2 = refl
has_flag-zero bit_3 = refl

-- Setting a flag sets it, and leaves every other flag alone.
pub has_flag-set_flag :
    (v : ℕ) (f g : Flag)
    → has_flag (set_flag v (value f)) (value g) ≡ (has_flag v (value g) || (value f == value g))
unfolding set_flag
has_flag-set_flag v bit_0 bit_0 = ground arith
has_flag-set_flag v _ _ = ground arith
