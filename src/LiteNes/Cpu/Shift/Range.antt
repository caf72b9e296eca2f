-- ===== src/LiteNes/Cpu/Shift/Range.antt =====
-- Shifts and rotations keep the machine in range.
use native.Mathlib.Nat.{mod-lt}
use wukong_am.Base.{ltb, ℕ, ◌<◌, Bool, arith, bit_and, bit_or, u8, ◌<<<◌, ◌>>>◌, truthy, of_bool}
use wukong_am.Base.Bits.{bit_and-lt_right}
use wukong_am.LiteNes.Machine.{Cpu, Nes, IsCpu, IsNes}
use wukong_am.LiteNes.Memory.Range.{memory_writeb-IsNes}
use wukong_am.LiteNes.Cpu.Flags.{carry_bp, zero_bp, negative_bp, cpu_flag_set, cpu_modify_flag}
use wukong_am.LiteNes.Cpu.Flags.Range.{modify_flag-IsCpu, update_zn_flags-IsCpu}
use wukong_am.LiteNes.Cpu.Alu.Range.{write_and_flag-IsNes}
use wukong_am.LiteNes.Cpu.Shift.{
  set_rotated, cpu_op_asla, cpu_op_asl, cpu_op_lsra, cpu_op_lsr, cpu_op_rola, cpu_op_rol,
  cpu_op_rora, cpu_op_ror,
}

low_byte : (n : ℕ) → bit_and n 0xff < 256
low_byte n = bit_and-lt_right 8 n 0xff (omega arith)

set_rotated-IsCpu :
    (carry : Bool) (value : ℕ) {c : Cpu} → IsCpu c → IsCpu (set_rotated carry value c)
unfolding set_rotated
set_rotated-IsCpu carry value h =
    modify_flag-IsCpu negative_bp carry (modify_flag-IsCpu zero_bp _ h)

pub cpu_op_asla-IsNes : {s : Nes} → IsNes s → IsNes (cpu_op_asla s)
unfolding cpu_op_asla
cpu_op_asla-IsNes {s} h =
    let flag = modify_flag-IsCpu carry_bp (truthy (bit_and s.cpu.a 0x80)) h.cpu in
    let c1 = cpu_modify_flag carry_bp (truthy (bit_and s.cpu.a 0x80)) s.cpu in
    let a : u8 (c1.a <<< 1) < 256 = mod-lt _ (omega arith) in
    let c : IsCpu (cpu_op_asla s).cpu = update_zn_flags-IsCpu _ (assumption (a, flag)) in
    assumption c

pub cpu_op_asl-IsNes : {s : Nes} → IsNes s → IsNes (cpu_op_asl s)
unfolding cpu_op_asl
cpu_op_asl-IsNes {s} h =
    let flag = modify_flag-IsCpu carry_bp (truthy (bit_and s.op_value 0x80)) h.cpu in
    let c = update_zn_flags-IsCpu (bit_and (s.op_value <<< 1) 0xff) flag in
    memory_writeb-IsNes s.op_address _ (assumption (low_byte (s.op_value <<< 1), c))

pub cpu_op_lsra-IsNes : {s : Nes} → IsNes s → IsNes (cpu_op_lsra s)
unfolding cpu_op_lsra
cpu_op_lsra-IsNes {s} h =
    let flag = modify_flag-IsCpu carry_bp (truthy (bit_and s.cpu.a 0x01)) h.cpu in
    let c : IsCpu (cpu_op_lsra s).cpu =
      update_zn_flags-IsCpu _ (assumption (low_byte (s.cpu.a >>> 1), flag)) in
    assumption c

pub cpu_op_lsr-IsNes : {s : Nes} → IsNes s → IsNes (cpu_op_lsr s)
unfolding cpu_op_lsr
cpu_op_lsr-IsNes {s} h =
    let flag = modify_flag-IsCpu carry_bp (truthy (bit_and s.op_value 0x01)) h.cpu in
    write_and_flag-IsNes s.op_address _ _ (assumption (low_byte (s.op_value >>> 1), flag))

pub cpu_op_rola-IsNes : {s : Nes} → IsNes s → IsNes (cpu_op_rola s)
unfolding cpu_op_rola
cpu_op_rola-IsNes {s} h =
    let value = bit_or (s.cpu.a <<< 1) (of_bool (cpu_flag_set s.cpu carry_bp)) in
    let flag = modify_flag-IsCpu carry_bp (ltb 0xff value) h.cpu in
    let c : IsCpu (cpu_op_rola s).cpu =
      update_zn_flags-IsCpu _ (assumption (low_byte value, flag)) in
    assumption c

pub cpu_op_rol-IsNes : {s : Nes} → IsNes s → IsNes (cpu_op_rol s)
unfolding cpu_op_rol
cpu_op_rol-IsNes {s} h =
    let shifted = bit_or (s.op_value <<< 1) (of_bool (cpu_flag_set s.cpu carry_bp)) in
    let flag = modify_flag-IsCpu carry_bp (ltb 0xff shifted) h.cpu in
    write_and_flag-IsNes s.op_address _ _ (assumption (low_byte shifted, flag))

pub cpu_op_rora-IsNes : {s : Nes} → IsNes s → IsNes (cpu_op_rora s)
unfolding cpu_op_rora
cpu_op_rora-IsNes {s} h =
    let carry = cpu_flag_set s.cpu carry_bp in
    let flag = modify_flag-IsCpu carry_bp (truthy (bit_and s.cpu.a 0x01)) h.cpu in
    let c1 = cpu_modify_flag carry_bp (truthy (bit_and s.cpu.a 0x01)) s.cpu in
    let a : u8 (bit_or (c1.a >>> 1) (of_bool carry <<< 7)) < 256 = mod-lt _ (omega arith) in
    let c : IsCpu (cpu_op_rora s).cpu = set_rotated-IsCpu carry _ (assumption (a, flag)) in
    assumption c

pub cpu_op_ror-IsNes : {s : Nes} → IsNes s → IsNes (cpu_op_ror s)
unfolding cpu_op_ror
cpu_op_ror-IsNes {s} h =
    let carry = cpu_flag_set s.cpu carry_bp in
    let value = bit_or (s.op_value >>> 1) (of_bool carry <<< 7) in
    let flag = modify_flag-IsCpu carry_bp (truthy (bit_and s.op_value 0x01)) h.cpu in
    let c = set_rotated-IsCpu carry (bit_and value 0xff) flag in
    memory_writeb-IsNes s.op_address _ (assumption (low_byte value, c))
