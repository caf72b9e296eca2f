-- ===== src/LiteNes/Cpu/Flags.antt =====
-- apps/litenes/src/cpu.c: the flag register and its macros.
pub mod Laws
pub mod Range
use wukong_am.Base.{ℕ, Bool, ◌==◌, ltb, if◌then◌else◌, bit_and, bit_or, u8}
use wukong_am.LiteNes.Bits.{common_bit_set, common_modify_bit}
use wukong_am.LiteNes.Machine.{Cpu, Nes}

-- The positions of `cpu_p_bp`.
abbrev pub carry_bp : ℕ
carry_bp = 0

abbrev pub zero_bp : ℕ
zero_bp = 1

abbrev pub interrupt_bp : ℕ
interrupt_bp = 2

abbrev pub decimal_bp : ℕ
decimal_bp = 3

abbrev pub unused_bp : ℕ
unused_bp = 5

abbrev pub overflow_bp : ℕ
overflow_bp = 6

abbrev pub negative_bp : ℕ
negative_bp = 7

-- The table of 256 entries: zero at 0, negative from 128 on.
pub cpu_zn_flag_table : ℕ → ℕ
cpu_zn_flag_table value = if value == 0 then 0x02 else if ltb value 128 then 0 else 0x80

unfoldable pub cpu_flag_set : Cpu → ℕ → Bool
cpu_flag_set c flag = common_bit_set c.p flag

unfoldable pub cpu_modify_flag : ℕ → Bool → Cpu → Cpu
cpu_modify_flag flag value c = record c { p = common_modify_bit 8 c.p flag value }

-- The complement of the two flags is that of an `int`.
unfoldable pub cpu_update_zn_flags : ℕ → Cpu → Cpu
cpu_update_zn_flags value c = record c {
  p = u8 (bit_or (bit_and c.p 0xffff_ff7d) (cpu_zn_flag_table value));
}

-- A step of the processor that leaves the rest of the machine alone.
abbrev pub on_cpu : (Cpu → Cpu) → Nes → Nes
on_cpu f s = record s { cpu = f s.cpu }
