-- ===== src/LiteNes/Cpu/Shift.antt =====
-- apps/litenes/src/cpu.c: shifts and rotations, of the accumulator and of memory.
pub mod Range
use wukong_am.Base.{ℕ, Bool, ◌==◌, ltb, bit_and, bit_or, truthy, of_bool}
use wukong_am.Base.{u8, ◌<<<◌, ◌>>>◌}
use wukong_am.LiteNes.Machine.{Cpu, Nes}
use wukong_am.LiteNes.Memory.{memory_writeb}
use wukong_am.LiteNes.Cpu.Flags.{
  carry_bp, zero_bp, negative_bp, cpu_flag_set, cpu_modify_flag, cpu_update_zn_flags, on_cpu,
}

pub cpu_op_asla : Nes → Nes
cpu_op_asla s =
    let c = cpu_modify_flag carry_bp (truthy (bit_and s.cpu.a 0x80)) s.cpu in
    let a = u8 (c.a <<< 1) in record s { cpu = cpu_update_zn_flags a (record c { a = a }) }

pub cpu_op_asl : Nes → Nes
cpu_op_asl s =
    let c = cpu_modify_flag carry_bp (truthy (bit_and s.op_value 0x80)) s.cpu in
    let value = bit_and (s.op_value <<< 1) 0xff in
    let s' = record s { cpu = cpu_update_zn_flags value c; op_value = value } in
    memory_writeb s' s.op_address value

pub cpu_op_lsra : Nes → Nes
cpu_op_lsra s =
    let value = s.cpu.a >>> 1 in
    let c = cpu_modify_flag carry_bp (truthy (bit_and s.cpu.a 0x01)) s.cpu in
    record s { cpu = cpu_update_zn_flags value (record c { a = bit_and value 0xff }) }

pub cpu_op_lsr : Nes → Nes
cpu_op_lsr s =
    let c = cpu_modify_flag carry_bp (truthy (bit_and s.op_value 0x01)) s.cpu in
    let value = bit_and (s.op_value >>> 1) 0xff in
    let s' = memory_writeb (record s { cpu = c; op_value = value }) s.op_address value in
    on_cpu (cpu_update_zn_flags value) s'

pub cpu_op_rola : Nes → Nes
cpu_op_rola s =
    let value = bit_or (s.cpu.a <<< 1) (of_bool (cpu_flag_set s.cpu carry_bp)) in
    let c = cpu_modify_flag carry_bp (ltb 0xff value) s.cpu in
    let a = bit_and value 0xff in record s { cpu = cpu_update_zn_flags a (record c { a = a }) }

pub cpu_op_rol : Nes → Nes
cpu_op_rol s =
    let shifted = bit_or (s.op_value <<< 1) (of_bool (cpu_flag_set s.cpu carry_bp)) in
    let c = cpu_modify_flag carry_bp (ltb 0xff shifted) s.cpu in
    let value = bit_and shifted 0xff in
    let s' = memory_writeb (record s { cpu = c; op_value = value }) s.op_address value in
    on_cpu (cpu_update_zn_flags value) s'

-- The flags of a rotation to the right: the old carry is the new sign.
set_rotated : Bool → ℕ → Cpu → Cpu
set_rotated carry value c =
    cpu_modify_flag negative_bp carry (cpu_modify_flag zero_bp (value == 0) c)

pub cpu_op_rora : Nes → Nes
cpu_op_rora s =
    let carry = cpu_flag_set s.cpu carry_bp in
    let c = cpu_modify_flag carry_bp (truthy (bit_and s.cpu.a 0x01)) s.cpu in
    let a = u8 (bit_or (c.a >>> 1) (of_bool carry <<< 7)) in
    record s { cpu = set_rotated carry a (record c { a = a }) }

pub cpu_op_ror : Nes → Nes
cpu_op_ror s =
    let carry = cpu_flag_set s.cpu carry_bp in
    let c = cpu_modify_flag carry_bp (truthy (bit_and s.op_value 0x01)) s.cpu in
    let value = bit_and (bit_or (s.op_value >>> 1) (of_bool carry <<< 7)) 0xff in
    memory_writeb (record s { cpu = set_rotated carry value c; op_value = value }) s.op_address
      value
