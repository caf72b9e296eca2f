-- ===== src/LiteNes/Cpu/Flags/Laws.antt =====
-- What the flag macros write.
use wukong_am.Base.{ℕ, ◌<◌, ◌≡◌, refl, Bool, arith, ◌==◌, leb, if◌then◌else◌, bit_and, bit_or}
use wukong_am.Base.{of_bool, ==_iff, true, ◌||◌}
use wukong_am.Base.Bits.{bit, bit-bit_or, bit-bit_and, bit-mod, bit-lt, bit-zero, bit-two_pow}
use wukong_am.Base.Bytes.{all_below, all_below_sound}
use wukong_am.LiteNes.Machine.{Cpu}
use wukong_am.LiteNes.Bits.Laws.{common_bit_set-common_modify_bit, of_bool-common_bit_set}
use wukong_am.LiteNes.Cpu.Flags.{
  cpu_flag_set, cpu_modify_flag, cpu_update_zn_flags, cpu_zn_flag_table,
}

-- One flag is written, the others are kept.
pub flag_set-modify_flag :
    (i j : ℕ) (value : Bool) (c : Cpu)
    → i < 8
    → j < 8
    → cpu_flag_set (cpu_modify_flag i value c) j ≡ (if i == j then value else cpu_flag_set c j)
unfolding cpu_flag_set cpu_modify_flag
flag_set-modify_flag i j value c h k =
    common_bit_set-common_modify_bit 8 c.p i j value (omega arith) h k

mask_table : all_below 8 (λ j. bit 0xffff_ff7d j == (if (j == 1) || (j == 7) then 0 else 1)) ≡ true
unfolding all_below
mask_table = refl

bit-mask : (j : ℕ) → j < 8 → bit 0xffff_ff7d j ≡ (if (j == 1) || (j == 7) then 0 else 1)
bit-mask j h = (==_iff _ _).0 (all_below_sound 8 _ j mask_table h)

bit-zn_table :
    (value j : ℕ)
    → bit (cpu_zn_flag_table value) j
      ≡ (if j == 1 then of_bool (value == 0) else if j == 7 then of_bool (leb 128 value) else 0)
unfolding cpu_zn_flag_table
bit-zn_table value j = ground (arith, bit-zero j, bit-two_pow 1 j, bit-two_pow 7 j)

-- After an update by a byte below 256, the zero flag tells whether it is 0, the negative flag
-- whether its bit 7 is set, and the other flags are kept.
pub flag_set-update_zn :
    (value j : ℕ) (c : Cpu)
    → value < 256
    → j < 8
    → cpu_flag_set (cpu_update_zn_flags value c) j
      ≡ (if j == 1 then value == 0 else if j == 7 then leb 128 value else cpu_flag_set c j)
unfolding cpu_flag_set cpu_update_zn_flags
flag_set-update_zn value j c h k = ground (
  arith,
  of_bool-common_bit_set (cpu_update_zn_flags value c).p j,
  of_bool-common_bit_set c.p j,
  bit-mod 8 (bit_or (bit_and c.p 0xffff_ff7d) (cpu_zn_flag_table value)) j,
  bit-bit_or (bit_and c.p 0xffff_ff7d) (cpu_zn_flag_table value) j,
  bit-bit_and c.p 0xffff_ff7d j,
  bit-mask j,
  bit-zn_table value j,
  bit-lt c.p j,
)
