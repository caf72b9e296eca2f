-- ===== src/LiteNes/Bits.antt =====
-- apps/litenes/src/common.c: tests and changes of one bit. `w` is the width of the type that the
-- macro `M_common` is expanded at: 8, 16 and 32. The mask `1L << position` is a 64-bit value.
pub mod Laws
use wukong_am.Base.{ℕ, ◌-◌, ◌*◌, ◌%◌, ◌^◌, Bool, bit_and, bit_or, bit_xor, truthy, if◌then◌else◌}

unfoldable pub common_bit_set : ℕ → ℕ → Bool
common_bit_set value position = truthy (bit_and value (2 ^ position))

pub common_set_bit : ℕ → ℕ → ℕ → ℕ
common_set_bit w variable position = bit_or variable (2 ^ position) % 2 ^ w

-- `~(1L << position)` is the 64-bit complement.
pub common_unset_bit : ℕ → ℕ → ℕ → ℕ
common_unset_bit w variable position = bit_and variable (2 ^ 64 - 1 - 2 ^ position) % 2 ^ w

pub common_toggle_bit : ℕ → ℕ → ℕ → ℕ
common_toggle_bit w variable position = bit_xor variable (2 ^ position) % 2 ^ w

pub common_modify_bit : ℕ → ℕ → ℕ → Bool → ℕ
common_modify_bit w variable position set =
    if set then common_set_bit w variable position else common_unset_bit w variable position
