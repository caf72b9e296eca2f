-- ===== src/LiteNes/Cpu/Flags/Range.antt =====
-- The flag macros keep the registers in range.
use wukong_am.Base.{ℕ, ◌<◌, Bool, arith}
use wukong_am.LiteNes.Machine.{Cpu, Nes, IsCpu, IsNes}
use wukong_am.LiteNes.Bits.Laws.{common_modify_bit-lt}
use wukong_am.LiteNes.Cpu.Flags.{cpu_modify_flag, cpu_update_zn_flags}

pub modify_flag-IsCpu :
    (flag : ℕ) (value : Bool) {c : Cpu} → IsCpu c → IsCpu (cpu_modify_flag flag value c)
unfolding cpu_modify_flag
modify_flag-IsCpu flag value {c} h = assumption (common_modify_bit-lt 8 c.p flag value)

pub update_zn_flags-IsCpu : (value : ℕ) {c : Cpu} → IsCpu c → IsCpu (cpu_update_zn_flags value c)
unfolding cpu_update_zn_flags
update_zn_flags-IsCpu value {c} h =
    let p : (cpu_update_zn_flags value c).p < 256 = omega arith in assumption p

pub set_cpu-IsNes : {s : Nes} {c : Cpu} → IsNes s → IsCpu c → IsNes (record s { cpu = c })
set_cpu-IsNes h k = assumption k
