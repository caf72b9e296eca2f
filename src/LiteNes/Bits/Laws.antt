-- ===== src/LiteNes/Bits/Laws.antt =====
-- What the bit operations of common.c do to each bit, at every width.
use native.Mathlib.Nat.{mod-lt, one-le-pow}
use wukong_am.Base.{ℕ, ◌-◌, ◌^◌, ◌≤◌, ◌<◌, ◌≡◌}
use wukong_am.Base.{Bool, true, false, bit_and, bit_or, arith, ◌==◌, if◌then◌else◌}
use wukong_am.Base.{of_bool}
use wukong_am.Base.Bits.{
  two_pow-lt, bit, bit-lt, bit-bit_and, bit-bit_or, bit-two_pow, bit-mod, bit-complement,
  bit_and-two_pow,
}
use wukong_am.LiteNes.Bits.{common_bit_set, common_set_bit, common_unset_bit, common_modify_bit}

-- `common_bit_set` reads the bit.
pub of_bool-common_bit_set : (v i : ℕ) → of_bool (common_bit_set v i) ≡ bit v i
unfolding common_bit_set
of_bool-common_bit_set v i = ground (arith, bit_and-two_pow v i, bit-lt v i, one-le-pow i 2)

-- `common_modify_bit` writes its bit and keeps every other bit of the variable.
pub bit-common_modify_bit :
    (w v i j : ℕ) (set : Bool)
    → w ≤ 64
    → i < w
    → j < w
    → bit (common_modify_bit w v i set) j ≡ (if i == j then of_bool set else bit v j)
unfolding common_modify_bit common_set_bit common_unset_bit
bit-common_modify_bit w v i j true h p q =
    ground
      (arith, bit-mod w (bit_or v (2 ^ i)) j, bit-bit_or v (2 ^ i) j, bit-two_pow i j, bit-lt v j)
bit-common_modify_bit w v i j false h p q = ground (
  arith,
  bit-mod w (bit_and v (2 ^ 64 - 1 - 2 ^ i)) j,
  bit-bit_and v (2 ^ 64 - 1 - 2 ^ i) j,
  bit-complement 64 (2 ^ i) j,
  two_pow-lt i 64,
  bit-two_pow i j,
  bit-lt v j,
)

-- The result fits the variable.
pub common_modify_bit-lt : (w v i : ℕ) (set : Bool) → common_modify_bit w v i set < 2 ^ w
unfolding common_modify_bit common_set_bit common_unset_bit
common_modify_bit-lt w v i true = mod-lt _ (one-le-pow w 2 (omega arith))
common_modify_bit-lt w v i false = mod-lt _ (one-le-pow w 2 (omega arith))

pub common_bit_set-common_modify_bit :
    (w v i j : ℕ) (set : Bool)
    → w ≤ 64
    → i < w
    → j < w
    → common_bit_set (common_modify_bit w v i set) j ≡ (if i == j then set else common_bit_set v j)
common_bit_set-common_modify_bit w v i j set h p q = ground (
  arith,
  of_bool-common_bit_set (common_modify_bit w v i set) j,
  of_bool-common_bit_set v j,
  bit-common_modify_bit w v i j set,
)
