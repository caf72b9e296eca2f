-- ===== src/LiteNes/Cpu/Run/Range.antt =====
-- Every instruction, every round of the loop and every run keep the machine in range.
use wukong_am.Base.{ℕ, zero, suc, ◌+◌, ◌-◌, ◌≡◌, Option, none, some, arith, ◌==◌, bit_or}
use wukong_am.Base.{Bool-cases, inl, inr, if-intro, false}
use wukong_am.LiteNes.Machine.{Nes, IsNes}
use wukong_am.LiteNes.Memory.Range.{memory_readb-IsRead}
use wukong_am.LiteNes.Addressing.Range.{address-IsNes}
use wukong_am.LiteNes.Ppu.{ppu_generates_nmi}
use wukong_am.LiteNes.Cpu.Flags.{unused_bp}
use wukong_am.LiteNes.Cpu.Flags.Range.{modify_flag-IsCpu, set_cpu-IsNes}
use wukong_am.LiteNes.Cpu.Ops.{Op, handler}
use wukong_am.LiteNes.Cpu.Table.{Entry, cpu_op_table}
use wukong_am.LiteNes.Cpu.Run.{
  cpu_reset, cpu_interrupt, fetch, execute, charge, cpu_step, run_loop, cpu_run,
}
use wukong_am.LiteNes.Cpu.Alu.Range.{
  cpu_op_adc-IsNes, cpu_op_and-IsNes, cpu_op_bit-IsNes, cpu_op_cmp-IsNes, cpu_op_cpx-IsNes,
  cpu_op_cpy-IsNes, cpu_op_dec-IsNes, cpu_op_dex-IsNes, cpu_op_dey-IsNes, cpu_op_eor-IsNes,
  cpu_op_inc-IsNes, cpu_op_inx-IsNes, cpu_op_iny-IsNes, cpu_op_ora-IsNes, cpu_op_sbc-IsNes,
}
use wukong_am.LiteNes.Cpu.Shift.Range.{
  cpu_op_asl-IsNes, cpu_op_asla-IsNes, cpu_op_lsr-IsNes, cpu_op_lsra-IsNes, cpu_op_rol-IsNes,
  cpu_op_rola-IsNes, cpu_op_ror-IsNes, cpu_op_rora-IsNes,
}
use wukong_am.LiteNes.Cpu.Stack.Range.{
  cpu_op_brk-IsNes, cpu_op_jmp-IsNes, cpu_op_jsr-IsNes, cpu_op_pha-IsNes, cpu_op_php-IsNes,
  cpu_op_pla-IsNes, cpu_op_plp-IsNes, cpu_op_rti-IsNes, cpu_op_rts-IsNes, set_pc-IsNes,
  set_sp-IsNes, set_p-IsNes, pushb-IsNes, pushw-IsNes, nmi_address-IsRead, reset_address-IsRead,
}
use wukong_am.LiteNes.Cpu.Move.Range.{
  cpu_op_aso-IsNes, cpu_op_axa-IsNes, cpu_op_axs-IsNes, cpu_op_bcc-IsNes, cpu_op_bcs-IsNes,
  cpu_op_beq-IsNes, cpu_op_bmi-IsNes, cpu_op_bne-IsNes, cpu_op_bpl-IsNes, cpu_op_bvc-IsNes,
  cpu_op_bvs-IsNes, cpu_op_clc-IsNes, cpu_op_cld-IsNes, cpu_op_cli-IsNes, cpu_op_clv-IsNes,
  cpu_op_dcm-IsNes, cpu_op_ins-IsNes, cpu_op_lax-IsNes, cpu_op_lda-IsNes, cpu_op_ldx-IsNes,
  cpu_op_ldy-IsNes, cpu_op_lse-IsNes, cpu_op_rla-IsNes, cpu_op_rra-IsNes, cpu_op_sec-IsNes,
  cpu_op_sed-IsNes, cpu_op_sei-IsNes, cpu_op_sta-IsNes, cpu_op_stx-IsNes, cpu_op_sty-IsNes,
  cpu_op_tax-IsNes, cpu_op_tay-IsNes, cpu_op_tsx-IsNes, cpu_op_txa-IsNes, cpu_op_txs-IsNes,
  cpu_op_tya-IsNes,
}

handler-IsNes : (op : Op) {s : Nes} → IsNes s → IsNes (handler op s)
unfolding handler
handler-IsNes Op.brk h = cpu_op_brk-IsNes h
handler-IsNes Op.ora h = cpu_op_ora-IsNes h
handler-IsNes Op.asl h = cpu_op_asl-IsNes h
handler-IsNes Op.php h = cpu_op_php-IsNes h
handler-IsNes Op.asla h = cpu_op_asla-IsNes h
handler-IsNes Op.bpl h = cpu_op_bpl-IsNes h
handler-IsNes Op.clc h = cpu_op_clc-IsNes h
handler-IsNes Op.jsr h = cpu_op_jsr-IsNes h
handler-IsNes Op.and h = cpu_op_and-IsNes h
handler-IsNes Op.bit h = cpu_op_bit-IsNes h
handler-IsNes Op.rol h = cpu_op_rol-IsNes h
handler-IsNes Op.plp h = cpu_op_plp-IsNes h
handler-IsNes Op.rola h = cpu_op_rola-IsNes h
handler-IsNes Op.bmi h = cpu_op_bmi-IsNes h
handler-IsNes Op.sec h = cpu_op_sec-IsNes h
handler-IsNes Op.rti h = cpu_op_rti-IsNes h
handler-IsNes Op.eor h = cpu_op_eor-IsNes h
handler-IsNes Op.lsr h = cpu_op_lsr-IsNes h
handler-IsNes Op.pha h = cpu_op_pha-IsNes h
handler-IsNes Op.lsra h = cpu_op_lsra-IsNes h
handler-IsNes Op.jmp h = cpu_op_jmp-IsNes h
handler-IsNes Op.bvc h = cpu_op_bvc-IsNes h
handler-IsNes Op.cli h = cpu_op_cli-IsNes h
handler-IsNes Op.rts h = cpu_op_rts-IsNes h
handler-IsNes Op.adc h = cpu_op_adc-IsNes h
handler-IsNes Op.ror h = cpu_op_ror-IsNes h
handler-IsNes Op.pla h = cpu_op_pla-IsNes h
handler-IsNes Op.rora h = cpu_op_rora-IsNes h
handler-IsNes Op.bvs h = cpu_op_bvs-IsNes h
handler-IsNes Op.sei h = cpu_op_sei-IsNes h
handler-IsNes Op.sta h = cpu_op_sta-IsNes h
handler-IsNes Op.sty h = cpu_op_sty-IsNes h
handler-IsNes Op.stx h = cpu_op_stx-IsNes h
handler-IsNes Op.dey h = cpu_op_dey-IsNes h
handler-IsNes Op.txa h = cpu_op_txa-IsNes h
handler-IsNes Op.bcc h = cpu_op_bcc-IsNes h
handler-IsNes Op.tya h = cpu_op_tya-IsNes h
handler-IsNes Op.txs h = cpu_op_txs-IsNes h
handler-IsNes Op.ldy h = cpu_op_ldy-IsNes h
handler-IsNes Op.lda h = cpu_op_lda-IsNes h
handler-IsNes Op.ldx h = cpu_op_ldx-IsNes h
handler-IsNes Op.tay h = cpu_op_tay-IsNes h
handler-IsNes Op.tax h = cpu_op_tax-IsNes h
handler-IsNes Op.bcs h = cpu_op_bcs-IsNes h
handler-IsNes Op.clv h = cpu_op_clv-IsNes h
handler-IsNes Op.tsx h = cpu_op_tsx-IsNes h
handler-IsNes Op.cpy h = cpu_op_cpy-IsNes h
handler-IsNes Op.cmp h = cpu_op_cmp-IsNes h
handler-IsNes Op.dec h = cpu_op_dec-IsNes h
handler-IsNes Op.iny h = cpu_op_iny-IsNes h
handler-IsNes Op.dex h = cpu_op_dex-IsNes h
handler-IsNes Op.bne h = cpu_op_bne-IsNes h
handler-IsNes Op.cld h = cpu_op_cld-IsNes h
handler-IsNes Op.cpx h = cpu_op_cpx-IsNes h
handler-IsNes Op.sbc h = cpu_op_sbc-IsNes h
handler-IsNes Op.inc h = cpu_op_inc-IsNes h
handler-IsNes Op.inx h = cpu_op_inx-IsNes h
handler-IsNes Op.nop h = h
handler-IsNes Op.beq h = cpu_op_beq-IsNes h
handler-IsNes Op.sed h = cpu_op_sed-IsNes h
handler-IsNes Op.aso h = cpu_op_aso-IsNes h
handler-IsNes Op.rla h = cpu_op_rla-IsNes h
handler-IsNes Op.lse h = cpu_op_lse-IsNes h
handler-IsNes Op.rra h = cpu_op_rra-IsNes h
handler-IsNes Op.axs h = cpu_op_axs-IsNes h
handler-IsNes Op.axa h = cpu_op_axa-IsNes h
handler-IsNes Op.lax h = cpu_op_lax-IsNes h
handler-IsNes Op.dcm h = cpu_op_dcm-IsNes h
handler-IsNes Op.ins h = cpu_op_ins-IsNes h
handler-IsNes Op.extension h = h

execute-IsNes : (e : Option Entry) {s : Nes} → IsNes s → IsNes (execute e s).1
unfolding execute
execute-IsNes none h = h
execute-IsNes (some e) h = handler-IsNes e.op (address-IsNes e.mode h)

-- A round of `cpu_run`, with the fetch, the addressing mode, the instruction and the memory accesses
-- of them all, leaves every register and every byte in range, from any state in range and whatever
-- the opcode.
pub cpu_step-IsNes : {s : Nes} → IsNes s → IsNes (cpu_step s).1
unfolding cpu_step fetch charge
cpu_step-IsNes {s} h =
    let fetched = memory_readb-IsRead s.cpu.pc (set_pc-IsNes (s.cpu.pc + 1) h) in
    let done = execute-IsNes (cpu_op_table (fetch s).0) fetched.1 in assumption done

run_loop-IsNes : (fuel cycles : ℕ) {s t : Nes} → IsNes s → run_loop fuel cycles s ≡ some t → IsNes t
unfolding run_loop
run_loop-IsNes zero cycles h e = absurd (cc)
run_loop-IsNes (suc fuel) cycles {s} {t} h e = elim (Bool-cases (cycles == 0)) [
  | inl stop ↦ let same : s ≡ t = ground arith in rw (← same) h
  | inr more ↦ run_loop-IsNes fuel (cycles - (cpu_step s).0) (cpu_step-IsNes h) (ground arith)
]

-- A run of the processor that ends leaves every register and every byte in range, from any state
-- in range, whatever the program.
pub cpu_run-IsNes :
    (fuel cycles : ℕ) {s t : Nes} → IsNes s → cpu_run fuel cycles s ≡ some t → IsNes t
unfolding cpu_run
cpu_run-IsNes fuel cycles h e = run_loop-IsNes fuel _ h e

-- So does the reset.
pub cpu_reset-IsNes : {s : Nes} → IsNes s → IsNes (cpu_reset s)
unfolding cpu_reset
cpu_reset-IsNes h = set_p-IsNes _ (set_sp-IsNes _ (set_pc-IsNes _ (reset_address-IsRead h).1))

-- The interrupt leaves every register and every byte in range, from any state in range, whether or
-- not the picture unit asks for it.
pub cpu_interrupt-IsNes : {s : Nes} → IsNes s → IsNes (cpu_interrupt s)
unfolding cpu_interrupt
cpu_interrupt-IsNes {s} h =
    let masked = set_p-IsNes (bit_or s.cpu.p 0x04) h in
    let flagged = set_cpu-IsNes masked (modify_flag-IsCpu unused_bp false masked.cpu) in
    let pushed = pushb-IsNes _ (pushw-IsNes _ flagged) in
    if-intro IsNes (ppu_generates_nmi s.ppu) (set_pc-IsNes _ (nmi_address-IsRead pushed).1) h
