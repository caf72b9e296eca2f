-- ===== src/LiteNes/Cpu/Alu/Range.antt =====
-- Arithmetic and logic keep the machine in range.
use native.Mathlib.Nat.{mod-lt}
use wukong_am.Base.{not, truthy, ℕ, ◌<◌, Bool, arith, bit_and}
use wukong_am.Base.Bits.{bit_and-lt_right}
use wukong_am.LiteNes.Machine.{Cpu, Nes, IsCpu, IsNes}
use wukong_am.LiteNes.Memory.Range.{memory_writeb-IsNes}
use wukong_am.LiteNes.Memory.{memory_writeb}
use wukong_am.LiteNes.Cpu.Flags.{
  carry_bp, zero_bp, overflow_bp, negative_bp, cpu_update_zn_flags, on_cpu,
}
use wukong_am.LiteNes.Cpu.Flags.Range.{modify_flag-IsCpu, update_zn_flags-IsCpu, set_cpu-IsNes}
use wukong_am.LiteNes.Cpu.Alu.{
  finish, adc, sbc, load_a, bit_test, cpu_compare, set_x, set_y, cpu_op_cmp, cpu_op_cpx, cpu_op_cpy,
  cpu_op_inc, cpu_op_dec, cpu_op_adc, cpu_op_sbc, cpu_op_and, cpu_op_eor, cpu_op_ora, cpu_op_bit,
  cpu_op_inx, cpu_op_iny, cpu_op_dex, cpu_op_dey,
}

pub load_a-IsCpu : (value : ℕ) {c : Cpu} → value < 256 → IsCpu c → IsCpu (load_a value c)
unfolding load_a
load_a-IsCpu value k h = update_zn_flags-IsCpu value (assumption k)

pub set_x-IsCpu : (value : ℕ) {c : Cpu} → value < 256 → IsCpu c → IsCpu (set_x value c)
unfolding set_x
set_x-IsCpu value k h = update_zn_flags-IsCpu value (assumption k)

pub set_y-IsCpu : (value : ℕ) {c : Cpu} → value < 256 → IsCpu c → IsCpu (set_y value c)
unfolding set_y
set_y-IsCpu value k h = update_zn_flags-IsCpu value (assumption k)

finish-IsCpu :
    (carry overflow : Bool) (result : ℕ) {c : Cpu}
    → IsCpu c
    → IsCpu (finish carry overflow result c)
unfolding finish
finish-IsCpu carry overflow result h =
    let a = bit_and-lt_right 8 result 0xff (omega arith) in
    let flags = modify_flag-IsCpu overflow_bp overflow (modify_flag-IsCpu carry_bp carry h) in
    update_zn_flags-IsCpu _ (assumption (a, flags))

pub cpu_op_adc-IsNes : {s : Nes} → IsNes s → IsNes (cpu_op_adc s)
unfolding cpu_op_adc adc
cpu_op_adc-IsNes h = set_cpu-IsNes h (finish-IsCpu _ _ _ h.cpu)

pub cpu_op_sbc-IsNes : {s : Nes} → IsNes s → IsNes (cpu_op_sbc s)
unfolding cpu_op_sbc sbc
cpu_op_sbc-IsNes h = set_cpu-IsNes h (finish-IsCpu _ _ _ h.cpu)

-- A byte loaded into the accumulator.
pub on_load_a-IsNes :
    (value : ℕ) {s : Nes} → value < 256 → IsNes s → IsNes (on_cpu (load_a value) s)
on_load_a-IsNes value k h = set_cpu-IsNes h (load_a-IsCpu value k h.cpu)

pub cpu_op_and-IsNes : {s : Nes} → IsNes s → IsNes (cpu_op_and s)
unfolding cpu_op_and
cpu_op_and-IsNes h = on_load_a-IsNes _ (omega arith) h

pub cpu_op_eor-IsNes : {s : Nes} → IsNes s → IsNes (cpu_op_eor s)
unfolding cpu_op_eor
cpu_op_eor-IsNes h = on_load_a-IsNes _ (omega arith) h

pub cpu_op_ora-IsNes : {s : Nes} → IsNes s → IsNes (cpu_op_ora s)
unfolding cpu_op_ora
cpu_op_ora-IsNes h = on_load_a-IsNes _ (omega arith) h

pub cpu_op_bit-IsNes : {s : Nes} → IsNes s → IsNes (cpu_op_bit s)
unfolding cpu_op_bit bit_test
cpu_op_bit-IsNes {s} h =
    let flags = modify_flag-IsCpu zero_bp (not (truthy (bit_and s.cpu.a s.op_value))) h.cpu in
    let p : (cpu_op_bit s).cpu.p < 256 = omega arith in
    let c : IsCpu (cpu_op_bit s).cpu = assumption (p, flags) in set_cpu-IsNes h c

pub cpu_compare-IsNes :
    (reg : ℕ) {s : Nes} → IsNes s → IsNes (on_cpu (cpu_compare reg s.op_value) s)
unfolding cpu_compare
cpu_compare-IsNes reg h = set_cpu-IsNes h (
    modify_flag-IsCpu negative_bp _
      (modify_flag-IsCpu zero_bp _ (modify_flag-IsCpu carry_bp _ h.cpu)))

-- A byte written to memory with the flags set by it.
pub write_and_flag-IsNes :
    (address value flag_value : ℕ) {s : Nes}
    → IsNes s
    → IsNes (on_cpu (cpu_update_zn_flags flag_value) (memory_writeb s address value))
write_and_flag-IsNes address value flag_value h =
    let w = memory_writeb-IsNes address value h in
    set_cpu-IsNes w (update_zn_flags-IsCpu flag_value w.cpu)

pub cpu_op_inx-IsNes : {s : Nes} → IsNes s → IsNes (cpu_op_inx s)
unfolding cpu_op_inx set_x
cpu_op_inx-IsNes h = set_cpu-IsNes h (set_x-IsCpu _ (mod-lt _ (omega arith)) h.cpu)

pub cpu_op_dex-IsNes : {s : Nes} → IsNes s → IsNes (cpu_op_dex s)
unfolding cpu_op_dex set_x
cpu_op_dex-IsNes h = set_cpu-IsNes h (set_x-IsCpu _ (mod-lt _ (omega arith)) h.cpu)

pub cpu_op_iny-IsNes : {s : Nes} → IsNes s → IsNes (cpu_op_iny s)
unfolding cpu_op_iny set_y
cpu_op_iny-IsNes h = set_cpu-IsNes h (set_y-IsCpu _ (mod-lt _ (omega arith)) h.cpu)

pub cpu_op_dey-IsNes : {s : Nes} → IsNes s → IsNes (cpu_op_dey s)
unfolding cpu_op_dey set_y
cpu_op_dey-IsNes h = set_cpu-IsNes h (set_y-IsCpu _ (mod-lt _ (omega arith)) h.cpu)

pub cpu_op_cmp-IsNes : {s : Nes} → IsNes s → IsNes (cpu_op_cmp s)
unfolding cpu_op_cmp
cpu_op_cmp-IsNes h = cpu_compare-IsNes _ h

pub cpu_op_cpx-IsNes : {s : Nes} → IsNes s → IsNes (cpu_op_cpx s)
unfolding cpu_op_cpx
cpu_op_cpx-IsNes h = cpu_compare-IsNes _ h

pub cpu_op_cpy-IsNes : {s : Nes} → IsNes s → IsNes (cpu_op_cpy s)
unfolding cpu_op_cpy
cpu_op_cpy-IsNes h = cpu_compare-IsNes _ h

pub cpu_op_inc-IsNes : {s : Nes} → IsNes s → IsNes (cpu_op_inc s)
unfolding cpu_op_inc
cpu_op_inc-IsNes h = write_and_flag-IsNes _ _ _ h

pub cpu_op_dec-IsNes : {s : Nes} → IsNes s → IsNes (cpu_op_dec s)
unfolding cpu_op_dec
cpu_op_dec-IsNes h = write_and_flag-IsNes _ _ _ h
