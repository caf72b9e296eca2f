-- ===== src/LiteNes/Cpu/Alu.antt =====
-- apps/litenes/src/cpu.c: addition, subtraction, logic, comparison, increment and decrement. A
-- negative `int` is its 32-bit pattern.
pub mod Laws
pub mod Range
use wukong_am.Base.{ℕ, ◌+◌, ◌-◌, ◌^◌, Bool, not, ◌==◌, ltb, if◌then◌else◌}
use wukong_am.Base.{bit_and, bit_or, bit_xor, truthy, of_bool, u8, u32, ◌>>>◌}
use wukong_am.LiteNes.Machine.{Cpu, Nes}
use wukong_am.LiteNes.Memory.{memory_writeb}
use wukong_am.LiteNes.Cpu.Flags.{
  carry_bp, zero_bp, overflow_bp, negative_bp, cpu_flag_set, cpu_modify_flag, cpu_update_zn_flags,
  on_cpu,
}

-- The common end of addition and subtraction: the flags first, then the accumulator.
finish : Bool → Bool → ℕ → Cpu → Cpu
finish carry overflow result c =
    let c1 = cpu_modify_flag overflow_bp overflow (cpu_modify_flag carry_bp carry c) in
    let a = bit_and result 0xff in cpu_update_zn_flags a (record c1 { a = a })

pub adc : ℕ → Cpu → Cpu
adc value c =
    let result = c.a + value + of_bool (cpu_flag_set c carry_bp) in
    let same = bit_xor (bit_xor c.a value) 0xffff_ffff in
    finish (truthy (bit_and result 0x100))
      (truthy (bit_and (bit_and same (bit_xor c.a result)) 0x80)) result c

pub sbc : ℕ → Cpu → Cpu
sbc value c =
    let result = u32 (c.a + 2 ^ 32 - value - (if cpu_flag_set c carry_bp then 0 else 1)) in
    finish (not (truthy (bit_and result 0x100)))
      (truthy (bit_and (bit_and (bit_xor c.a value) (bit_xor c.a result)) 0x80)) result c

pub cpu_op_adc : Nes → Nes
cpu_op_adc s = on_cpu (adc s.op_value) s

pub cpu_op_sbc : Nes → Nes
cpu_op_sbc s = on_cpu (sbc s.op_value) s

-- `cpu.A` takes a value and the flags follow it.
pub load_a : ℕ → Cpu → Cpu
load_a value c = cpu_update_zn_flags value (record c { a = value })

pub cpu_op_and : Nes → Nes
cpu_op_and s = on_cpu (load_a (u8 (bit_and s.cpu.a s.op_value))) s

pub cpu_op_eor : Nes → Nes
cpu_op_eor s = on_cpu (load_a (u8 (bit_xor s.cpu.a s.op_value))) s

pub cpu_op_ora : Nes → Nes
cpu_op_ora s = on_cpu (load_a (u8 (bit_or s.cpu.a s.op_value))) s

bit_test : ℕ → Cpu → Cpu
bit_test value c =
    let c1 = cpu_modify_flag zero_bp (not (truthy (bit_and c.a value))) c in
    record c1 { p = u8 (bit_or (bit_and c1.p 0x3f) (bit_and 0xc0 value)) }

pub cpu_op_bit : Nes → Nes
cpu_op_bit s = on_cpu (bit_test s.op_value) s

-- The macro `cpu_compare`: a result that is not negative lies below `2 ^ 31`.
pub cpu_compare : ℕ → ℕ → Cpu → Cpu
cpu_compare reg value c =
    let result = u32 (reg + 2 ^ 32 - value) in
    cpu_modify_flag negative_bp (truthy (bit_and (result >>> 7) 1))
      (cpu_modify_flag zero_bp (result == 0) (cpu_modify_flag carry_bp (ltb result (2 ^ 31)) c))

pub cpu_op_cmp : Nes → Nes
cpu_op_cmp s = on_cpu (cpu_compare s.cpu.a s.op_value) s

pub cpu_op_cpx : Nes → Nes
cpu_op_cpx s = on_cpu (cpu_compare s.cpu.x s.op_value) s

pub cpu_op_cpy : Nes → Nes
cpu_op_cpy s = on_cpu (cpu_compare s.cpu.y s.op_value) s

pub cpu_op_inc : Nes → Nes
cpu_op_inc s =
    let result = u8 (s.op_value + 1) in
    on_cpu (cpu_update_zn_flags result) (memory_writeb s s.op_address result)

pub cpu_op_dec : Nes → Nes
cpu_op_dec s =
    let result = u8 (s.op_value + 2 ^ 32 - 1) in
    on_cpu (cpu_update_zn_flags result) (memory_writeb s s.op_address result)

pub set_x : ℕ → Cpu → Cpu
set_x value c = cpu_update_zn_flags value (record c { x = value })

pub set_y : ℕ → Cpu → Cpu
set_y value c = cpu_update_zn_flags value (record c { y = value })

pub cpu_op_inx : Nes → Nes
unfolding set_x
cpu_op_inx s = on_cpu (set_x (u8 (s.cpu.x + 1))) s

pub cpu_op_iny : Nes → Nes
unfolding set_y
cpu_op_iny s = on_cpu (set_y (u8 (s.cpu.y + 1))) s

pub cpu_op_dex : Nes → Nes
unfolding set_x
cpu_op_dex s = on_cpu (set_x (u8 (s.cpu.x + 2 ^ 8 - 1))) s

pub cpu_op_dey : Nes → Nes
unfolding set_y
cpu_op_dey s = on_cpu (set_y (u8 (s.cpu.y + 2 ^ 8 - 1))) s
