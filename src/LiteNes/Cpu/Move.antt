-- ===== src/LiteNes/Cpu/Move.antt =====
-- apps/litenes/src/cpu.c: loads, stores, transfers, branches, flag instructions, and the instructions
-- that other chips of the family have.
pub mod Range
use wukong_am.Base.{◌+◌, ◌-◌, ◌^◌, Bool, true, false, not, if◌then◌else◌, bit_and, u8, u32, ◌>>>◌}
use wukong_am.LiteNes.Machine.{Nes}
use wukong_am.LiteNes.Memory.{memory_writeb}
use wukong_am.LiteNes.Cpu.Flags.{
  carry_bp, zero_bp, interrupt_bp, decimal_bp, overflow_bp, negative_bp, cpu_flag_set,
  cpu_modify_flag, on_cpu,
}
use wukong_am.LiteNes.Cpu.Alu.{
  load_a, set_x, set_y, cpu_op_adc, cpu_op_sbc, cpu_op_and, cpu_op_eor, cpu_op_ora, cpu_op_cmp,
}
use wukong_am.LiteNes.Cpu.Shift.{cpu_op_asl, cpu_op_lsr, cpu_op_rol, cpu_op_ror}
use wukong_am.LiteNes.Cpu.Stack.{set_pc}

pub cpu_op_lda : Nes → Nes
cpu_op_lda s = on_cpu (load_a (u8 s.op_value)) s

pub cpu_op_ldx : Nes → Nes
cpu_op_ldx s = on_cpu (set_x (u8 s.op_value)) s

pub cpu_op_ldy : Nes → Nes
cpu_op_ldy s = on_cpu (set_y (u8 s.op_value)) s

pub cpu_op_sta : Nes → Nes
cpu_op_sta s = memory_writeb s s.op_address s.cpu.a

pub cpu_op_stx : Nes → Nes
cpu_op_stx s = memory_writeb s s.op_address s.cpu.x

pub cpu_op_sty : Nes → Nes
cpu_op_sty s = memory_writeb s s.op_address s.cpu.y

pub cpu_op_tax : Nes → Nes
cpu_op_tax s = on_cpu (set_x s.cpu.a) s

pub cpu_op_txa : Nes → Nes
cpu_op_txa s = on_cpu (load_a s.cpu.x) s

pub cpu_op_tay : Nes → Nes
cpu_op_tay s = on_cpu (set_y s.cpu.a) s

pub cpu_op_tya : Nes → Nes
cpu_op_tya s = on_cpu (load_a s.cpu.y) s

pub cpu_op_tsx : Nes → Nes
cpu_op_tsx s = on_cpu (set_x s.cpu.sp) s

pub cpu_op_txs : Nes → Nes
cpu_op_txs s = on_cpu (λ c. record c { sp = c.x }) s

-- The macro `cpu_branch`.
cpu_branch : Bool → Nes → Nes
cpu_branch flag s = if flag then set_pc s.op_address s else s

pub cpu_op_bcs : Nes → Nes
cpu_op_bcs s = cpu_branch (cpu_flag_set s.cpu carry_bp) s

pub cpu_op_beq : Nes → Nes
cpu_op_beq s = cpu_branch (cpu_flag_set s.cpu zero_bp) s

pub cpu_op_bmi : Nes → Nes
cpu_op_bmi s = cpu_branch (cpu_flag_set s.cpu negative_bp) s

pub cpu_op_bvs : Nes → Nes
cpu_op_bvs s = cpu_branch (cpu_flag_set s.cpu overflow_bp) s

pub cpu_op_bne : Nes → Nes
cpu_op_bne s = cpu_branch (not (cpu_flag_set s.cpu zero_bp)) s

pub cpu_op_bcc : Nes → Nes
cpu_op_bcc s = cpu_branch (not (cpu_flag_set s.cpu carry_bp)) s

pub cpu_op_bpl : Nes → Nes
cpu_op_bpl s = cpu_branch (not (cpu_flag_set s.cpu negative_bp)) s

pub cpu_op_bvc : Nes → Nes
cpu_op_bvc s = cpu_branch (not (cpu_flag_set s.cpu overflow_bp)) s

pub cpu_op_clc : Nes → Nes
cpu_op_clc s = on_cpu (cpu_modify_flag carry_bp false) s

pub cpu_op_cld : Nes → Nes
cpu_op_cld s = on_cpu (cpu_modify_flag decimal_bp false) s

pub cpu_op_cli : Nes → Nes
cpu_op_cli s = on_cpu (cpu_modify_flag interrupt_bp false) s

pub cpu_op_clv : Nes → Nes
cpu_op_clv s = on_cpu (cpu_modify_flag overflow_bp false) s

pub cpu_op_sec : Nes → Nes
cpu_op_sec s = on_cpu (cpu_modify_flag carry_bp true) s

pub cpu_op_sed : Nes → Nes
cpu_op_sed s = on_cpu (cpu_modify_flag decimal_bp true) s

pub cpu_op_sei : Nes → Nes
cpu_op_sei s = on_cpu (cpu_modify_flag interrupt_bp true) s

pub cpu_op_aso : Nes → Nes
cpu_op_aso s = cpu_op_ora (cpu_op_asl s)

pub cpu_op_axa : Nes → Nes
cpu_op_axa s = memory_writeb s s.op_address (bit_and (bit_and s.cpu.a s.cpu.x) (s.op_address >>> 8))

pub cpu_op_axs : Nes → Nes
cpu_op_axs s = memory_writeb s s.op_address (bit_and s.cpu.a s.cpu.x)

pub cpu_op_dcm : Nes → Nes
cpu_op_dcm s =
    let value = bit_and (u32 (s.op_value + 2 ^ 32 - 1)) 0xff in
    cpu_op_cmp (memory_writeb (record s { op_value = value }) s.op_address value)

pub cpu_op_ins : Nes → Nes
cpu_op_ins s =
    let value = bit_and (s.op_value + 1) 0xff in
    cpu_op_sbc (memory_writeb (record s { op_value = value }) s.op_address value)

pub cpu_op_lax : Nes → Nes
cpu_op_lax s = on_cpu (λ c. load_a (u8 s.op_value) (record c { x = u8 s.op_value })) s

pub cpu_op_lse : Nes → Nes
cpu_op_lse s = cpu_op_eor (cpu_op_lsr s)

pub cpu_op_rla : Nes → Nes
cpu_op_rla s = cpu_op_and (cpu_op_rol s)

pub cpu_op_rra : Nes → Nes
cpu_op_rra s = cpu_op_adc (cpu_op_ror s)
