-- ===== src/LiteNes/Cpu/Move/Range.antt =====
-- Loads, stores, transfers, branches, flag instructions and the combined ones keep the machine in
-- range.
use native.Mathlib.Nat.{mod-lt}
use wukong_am.Base.{ℕ, ◌+◌, ◌-◌, ◌^◌, ◌<◌, Bool, true, false, arith, bit_and, u8, u32}
use wukong_am.Base.{if-intro}
use wukong_am.Base.Bits.{bit_and-lt_right}
use wukong_am.LiteNes.Machine.{Nes, IsCpu, IsNes}
use wukong_am.LiteNes.Memory.Range.{memory_writeb-IsNes}
use wukong_am.LiteNes.Cpu.Flags.{cpu_modify_flag, on_cpu}
use wukong_am.LiteNes.Cpu.Flags.Range.{modify_flag-IsCpu, set_cpu-IsNes}
use wukong_am.LiteNes.Cpu.Alu.{set_x, set_y}
use wukong_am.LiteNes.Cpu.Alu.Range.{
  load_a-IsCpu, set_x-IsCpu, set_y-IsCpu, on_load_a-IsNes, cpu_op_adc-IsNes, cpu_op_sbc-IsNes,
  cpu_op_and-IsNes, cpu_op_eor-IsNes, cpu_op_ora-IsNes, cpu_op_cmp-IsNes,
}
use wukong_am.LiteNes.Cpu.Shift.Range.{
  cpu_op_asl-IsNes, cpu_op_lsr-IsNes, cpu_op_rol-IsNes, cpu_op_ror-IsNes,
}
use wukong_am.LiteNes.Cpu.Stack.Range.{set_pc-IsNes}
use wukong_am.LiteNes.Cpu.Move.{
  cpu_branch, cpu_op_aso, cpu_op_axa, cpu_op_axs, cpu_op_bcc, cpu_op_bcs, cpu_op_beq, cpu_op_bmi,
  cpu_op_bne, cpu_op_bpl, cpu_op_bvc, cpu_op_bvs, cpu_op_clc, cpu_op_cld, cpu_op_cli, cpu_op_clv,
  cpu_op_dcm, cpu_op_ins, cpu_op_lax, cpu_op_lda, cpu_op_ldx, cpu_op_ldy, cpu_op_lse, cpu_op_rla,
  cpu_op_rra, cpu_op_sec, cpu_op_sed, cpu_op_sei, cpu_op_sta, cpu_op_stx, cpu_op_sty, cpu_op_tax,
  cpu_op_tay, cpu_op_tsx, cpu_op_txa, cpu_op_txs, cpu_op_tya,
}

-- The helpers that the instructions share.
branch-IsNes : (flag : Bool) {s : Nes} → IsNes s → IsNes (cpu_branch flag s)
unfolding cpu_branch
branch-IsNes flag h = if-intro IsNes flag (set_pc-IsNes _ h) h

flag-IsNes : (i : ℕ) (value : Bool) {s : Nes} → IsNes s → IsNes (on_cpu (cpu_modify_flag i value) s)
flag-IsNes i value h = set_cpu-IsNes h (modify_flag-IsCpu i value h.cpu)

x-IsNes : (value : ℕ) {s : Nes} → value < 256 → IsNes s → IsNes (on_cpu (set_x value) s)
x-IsNes value k h = set_cpu-IsNes h (set_x-IsCpu value k h.cpu)

y-IsNes : (value : ℕ) {s : Nes} → value < 256 → IsNes s → IsNes (on_cpu (set_y value) s)
y-IsNes value k h = set_cpu-IsNes h (set_y-IsCpu value k h.cpu)

pub cpu_op_lda-IsNes : {s : Nes} → IsNes s → IsNes (cpu_op_lda s)
unfolding cpu_op_lda
cpu_op_lda-IsNes h = on_load_a-IsNes _ (mod-lt _ (omega arith)) h

pub cpu_op_ldx-IsNes : {s : Nes} → IsNes s → IsNes (cpu_op_ldx s)
unfolding cpu_op_ldx
cpu_op_ldx-IsNes h = x-IsNes _ (mod-lt _ (omega arith)) h

pub cpu_op_ldy-IsNes : {s : Nes} → IsNes s → IsNes (cpu_op_ldy s)
unfolding cpu_op_ldy
cpu_op_ldy-IsNes h = y-IsNes _ (mod-lt _ (omega arith)) h

pub cpu_op_sta-IsNes : {s : Nes} → IsNes s → IsNes (cpu_op_sta s)
unfolding cpu_op_sta
cpu_op_sta-IsNes h = memory_writeb-IsNes _ _ h

pub cpu_op_stx-IsNes : {s : Nes} → IsNes s → IsNes (cpu_op_stx s)
unfolding cpu_op_stx
cpu_op_stx-IsNes h = memory_writeb-IsNes _ _ h

pub cpu_op_sty-IsNes : {s : Nes} → IsNes s → IsNes (cpu_op_sty s)
unfolding cpu_op_sty
cpu_op_sty-IsNes h = memory_writeb-IsNes _ _ h

pub cpu_op_axa-IsNes : {s : Nes} → IsNes s → IsNes (cpu_op_axa s)
unfolding cpu_op_axa
cpu_op_axa-IsNes h = memory_writeb-IsNes _ _ h

pub cpu_op_axs-IsNes : {s : Nes} → IsNes s → IsNes (cpu_op_axs s)
unfolding cpu_op_axs
cpu_op_axs-IsNes h = memory_writeb-IsNes _ _ h

pub cpu_op_tax-IsNes : {s : Nes} → IsNes s → IsNes (cpu_op_tax s)
unfolding cpu_op_tax
cpu_op_tax-IsNes h = x-IsNes _ h.cpu.a h

pub cpu_op_tsx-IsNes : {s : Nes} → IsNes s → IsNes (cpu_op_tsx s)
unfolding cpu_op_tsx
cpu_op_tsx-IsNes h = x-IsNes _ h.cpu.sp h

pub cpu_op_tay-IsNes : {s : Nes} → IsNes s → IsNes (cpu_op_tay s)
unfolding cpu_op_tay
cpu_op_tay-IsNes h = y-IsNes _ h.cpu.a h

pub cpu_op_txa-IsNes : {s : Nes} → IsNes s → IsNes (cpu_op_txa s)
unfolding cpu_op_txa
cpu_op_txa-IsNes h = on_load_a-IsNes _ h.cpu.x h

pub cpu_op_tya-IsNes : {s : Nes} → IsNes s → IsNes (cpu_op_tya s)
unfolding cpu_op_tya
cpu_op_tya-IsNes h = on_load_a-IsNes _ h.cpu.y h

pub cpu_op_txs-IsNes : {s : Nes} → IsNes s → IsNes (cpu_op_txs s)
unfolding cpu_op_txs
cpu_op_txs-IsNes {s} h =
    let c : IsCpu (cpu_op_txs s).cpu = assumption (h.cpu.x, h.cpu) in set_cpu-IsNes h c

pub cpu_op_bcs-IsNes : {s : Nes} → IsNes s → IsNes (cpu_op_bcs s)
unfolding cpu_op_bcs
cpu_op_bcs-IsNes h = branch-IsNes _ h

pub cpu_op_beq-IsNes : {s : Nes} → IsNes s → IsNes (cpu_op_beq s)
unfolding cpu_op_beq
cpu_op_beq-IsNes h = branch-IsNes _ h

pub cpu_op_bmi-IsNes : {s : Nes} → IsNes s → IsNes (cpu_op_bmi s)
unfolding cpu_op_bmi
cpu_op_bmi-IsNes h = branch-IsNes _ h

pub cpu_op_bvs-IsNes : {s : Nes} → IsNes s → IsNes (cpu_op_bvs s)
unfolding cpu_op_bvs
cpu_op_bvs-IsNes h = branch-IsNes _ h

pub cpu_op_bne-IsNes : {s : Nes} → IsNes s → IsNes (cpu_op_bne s)
unfolding cpu_op_bne
cpu_op_bne-IsNes h = branch-IsNes _ h

pub cpu_op_bcc-IsNes : {s : Nes} → IsNes s → IsNes (cpu_op_bcc s)
unfolding cpu_op_bcc
cpu_op_bcc-IsNes h = branch-IsNes _ h

pub cpu_op_bpl-IsNes : {s : Nes} → IsNes s → IsNes (cpu_op_bpl s)
unfolding cpu_op_bpl
cpu_op_bpl-IsNes h = branch-IsNes _ h

pub cpu_op_bvc-IsNes : {s : Nes} → IsNes s → IsNes (cpu_op_bvc s)
unfolding cpu_op_bvc
cpu_op_bvc-IsNes h = branch-IsNes _ h

pub cpu_op_clc-IsNes : {s : Nes} → IsNes s → IsNes (cpu_op_clc s)
unfolding cpu_op_clc
cpu_op_clc-IsNes h = flag-IsNes _ false h

pub cpu_op_cld-IsNes : {s : Nes} → IsNes s → IsNes (cpu_op_cld s)
unfolding cpu_op_cld
cpu_op_cld-IsNes h = flag-IsNes _ false h

pub cpu_op_cli-IsNes : {s : Nes} → IsNes s → IsNes (cpu_op_cli s)
unfolding cpu_op_cli
cpu_op_cli-IsNes h = flag-IsNes _ false h

pub cpu_op_clv-IsNes : {s : Nes} → IsNes s → IsNes (cpu_op_clv s)
unfolding cpu_op_clv
cpu_op_clv-IsNes h = flag-IsNes _ false h

pub cpu_op_sec-IsNes : {s : Nes} → IsNes s → IsNes (cpu_op_sec s)
unfolding cpu_op_sec
cpu_op_sec-IsNes h = flag-IsNes _ true h

pub cpu_op_sed-IsNes : {s : Nes} → IsNes s → IsNes (cpu_op_sed s)
unfolding cpu_op_sed
cpu_op_sed-IsNes h = flag-IsNes _ true h

pub cpu_op_sei-IsNes : {s : Nes} → IsNes s → IsNes (cpu_op_sei s)
unfolding cpu_op_sei
cpu_op_sei-IsNes h = flag-IsNes _ true h

pub cpu_op_aso-IsNes : {s : Nes} → IsNes s → IsNes (cpu_op_aso s)
unfolding cpu_op_aso
cpu_op_aso-IsNes h = cpu_op_ora-IsNes (cpu_op_asl-IsNes h)

pub cpu_op_lse-IsNes : {s : Nes} → IsNes s → IsNes (cpu_op_lse s)
unfolding cpu_op_lse
cpu_op_lse-IsNes h = cpu_op_eor-IsNes (cpu_op_lsr-IsNes h)

pub cpu_op_rla-IsNes : {s : Nes} → IsNes s → IsNes (cpu_op_rla s)
unfolding cpu_op_rla
cpu_op_rla-IsNes h = cpu_op_and-IsNes (cpu_op_rol-IsNes h)

pub cpu_op_rra-IsNes : {s : Nes} → IsNes s → IsNes (cpu_op_rra s)
unfolding cpu_op_rra
cpu_op_rra-IsNes h = cpu_op_adc-IsNes (cpu_op_ror-IsNes h)

pub cpu_op_lax-IsNes : {s : Nes} → IsNes s → IsNes (cpu_op_lax s)
unfolding cpu_op_lax
cpu_op_lax-IsNes {s} h =
    let v : u8 s.op_value < 256 = mod-lt _ (omega arith) in
    set_cpu-IsNes h (load_a-IsCpu _ v (assumption (v, h.cpu)))

pub cpu_op_dcm-IsNes : {s : Nes} → IsNes s → IsNes (cpu_op_dcm s)
unfolding cpu_op_dcm
cpu_op_dcm-IsNes {s} h =
    let value = bit_and (u32 (s.op_value + 2 ^ 32 - 1)) 0xff in
    let v = bit_and-lt_right 8 (u32 (s.op_value + 2 ^ 32 - 1)) 0xff (omega arith) in
    cpu_op_cmp-IsNes (memory_writeb-IsNes s.op_address value (assumption (v, h)))

pub cpu_op_ins-IsNes : {s : Nes} → IsNes s → IsNes (cpu_op_ins s)
unfolding cpu_op_ins
cpu_op_ins-IsNes {s} h =
    let v = bit_and-lt_right 8 (s.op_value + 1) 0xff (omega arith) in
    cpu_op_sbc-IsNes
      (memory_writeb-IsNes s.op_address (bit_and (s.op_value + 1) 0xff) (assumption (v, h)))
