-- ===== src/LiteNes/Cpu/Ops.antt =====
-- The instructions as data, and the function behind each: the names that `cpu_init` of
-- apps/litenes/src/cpu.c puts into its table of handlers.
use wukong_am.LiteNes.Machine.{Nes}
use wukong_am.LiteNes.Cpu.Alu.{
  cpu_op_adc, cpu_op_and, cpu_op_bit, cpu_op_cmp, cpu_op_cpx, cpu_op_cpy, cpu_op_dec, cpu_op_dex,
  cpu_op_dey, cpu_op_eor, cpu_op_inc, cpu_op_inx, cpu_op_iny, cpu_op_ora, cpu_op_sbc,
}
use wukong_am.LiteNes.Cpu.Shift.{
  cpu_op_asl, cpu_op_asla, cpu_op_lsr, cpu_op_lsra, cpu_op_rol, cpu_op_rola, cpu_op_ror,
  cpu_op_rora,
}
use wukong_am.LiteNes.Cpu.Stack.{
  cpu_op_brk, cpu_op_jmp, cpu_op_jsr, cpu_op_pha, cpu_op_php, cpu_op_pla, cpu_op_plp, cpu_op_rti,
  cpu_op_rts,
}
use wukong_am.LiteNes.Cpu.Move.{
  cpu_op_aso, cpu_op_axa, cpu_op_axs, cpu_op_bcc, cpu_op_bcs, cpu_op_beq, cpu_op_bmi, cpu_op_bne,
  cpu_op_bpl, cpu_op_bvc, cpu_op_bvs, cpu_op_clc, cpu_op_cld, cpu_op_cli, cpu_op_clv, cpu_op_dcm,
  cpu_op_ins, cpu_op_lax, cpu_op_lda, cpu_op_ldx, cpu_op_ldy, cpu_op_lse, cpu_op_rla, cpu_op_rra,
  cpu_op_sec, cpu_op_sed, cpu_op_sei, cpu_op_sta, cpu_op_stx, cpu_op_sty, cpu_op_tax, cpu_op_tay,
  cpu_op_tsx, cpu_op_txa, cpu_op_txs, cpu_op_tya,
}

-- `nop` is the base instruction, `extension` the empty handler `____FE____`.
pub data Op : Type 0 where
  brk ora asl php asla bpl clc jsr and bit rol plp rola bmi sec rti eor lsr pha lsra jmp : Op
  bvc cli rts adc ror pla rora bvs sei sta sty stx dey txa bcc tya txs ldy lda ldx tay tax : Op
  bcs clv tsx cpy cmp dec iny dex bne cld cpx sbc inc inx nop beq sed aso rla lse rra axs : Op
  axa lax dcm ins extension : Op

unfoldable pub handler : Op → Nes → Nes
handler Op.brk s = cpu_op_brk s
handler Op.ora s = cpu_op_ora s
handler Op.asl s = cpu_op_asl s
handler Op.php s = cpu_op_php s
handler Op.asla s = cpu_op_asla s
handler Op.bpl s = cpu_op_bpl s
handler Op.clc s = cpu_op_clc s
handler Op.jsr s = cpu_op_jsr s
handler Op.and s = cpu_op_and s
handler Op.bit s = cpu_op_bit s
handler Op.rol s = cpu_op_rol s
handler Op.plp s = cpu_op_plp s
handler Op.rola s = cpu_op_rola s
handler Op.bmi s = cpu_op_bmi s
handler Op.sec s = cpu_op_sec s
handler Op.rti s = cpu_op_rti s
handler Op.eor s = cpu_op_eor s
handler Op.lsr s = cpu_op_lsr s
handler Op.pha s = cpu_op_pha s
handler Op.lsra s = cpu_op_lsra s
handler Op.jmp s = cpu_op_jmp s
handler Op.bvc s = cpu_op_bvc s
handler Op.cli s = cpu_op_cli s
handler Op.rts s = cpu_op_rts s
handler Op.adc s = cpu_op_adc s
handler Op.ror s = cpu_op_ror s
handler Op.pla s = cpu_op_pla s
handler Op.rora s = cpu_op_rora s
handler Op.bvs s = cpu_op_bvs s
handler Op.sei s = cpu_op_sei s
handler Op.sta s = cpu_op_sta s
handler Op.sty s = cpu_op_sty s
handler Op.stx s = cpu_op_stx s
handler Op.dey s = cpu_op_dey s
handler Op.txa s = cpu_op_txa s
handler Op.bcc s = cpu_op_bcc s
handler Op.tya s = cpu_op_tya s
handler Op.txs s = cpu_op_txs s
handler Op.ldy s = cpu_op_ldy s
handler Op.lda s = cpu_op_lda s
handler Op.ldx s = cpu_op_ldx s
handler Op.tay s = cpu_op_tay s
handler Op.tax s = cpu_op_tax s
handler Op.bcs s = cpu_op_bcs s
handler Op.clv s = cpu_op_clv s
handler Op.tsx s = cpu_op_tsx s
handler Op.cpy s = cpu_op_cpy s
handler Op.cmp s = cpu_op_cmp s
handler Op.dec s = cpu_op_dec s
handler Op.iny s = cpu_op_iny s
handler Op.dex s = cpu_op_dex s
handler Op.bne s = cpu_op_bne s
handler Op.cld s = cpu_op_cld s
handler Op.cpx s = cpu_op_cpx s
handler Op.sbc s = cpu_op_sbc s
handler Op.inc s = cpu_op_inc s
handler Op.inx s = cpu_op_inx s
handler Op.nop s = s
handler Op.beq s = cpu_op_beq s
handler Op.sed s = cpu_op_sed s
handler Op.aso s = cpu_op_aso s
handler Op.rla s = cpu_op_rla s
handler Op.lse s = cpu_op_lse s
handler Op.rra s = cpu_op_rra s
handler Op.axs s = cpu_op_axs s
handler Op.axa s = cpu_op_axa s
handler Op.lax s = cpu_op_lax s
handler Op.dcm s = cpu_op_dcm s
handler Op.ins s = cpu_op_ins s
handler Op.extension s = s
