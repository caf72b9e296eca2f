-- ===== src/LiteNes/Cpu/Stack/Range.antt =====
-- The stack, jumps and interruptions keep the machine in range.
use native.Mathlib.Nat.{mod-lt}
use wukong_am.Base.{ℕ, ◌<◌, arith, u8, u16}
use wukong_am.LiteNes.Machine.{Nes, IsCpu, IsNes}
use wukong_am.LiteNes.Memory.Range.{
  IsRead, memory_readb-IsRead, memory_readw-IsRead, memory_writeb-IsNes, memory_writew-IsNes,
}
use wukong_am.LiteNes.Cpu.Flags.Range.{set_cpu-IsNes}
use wukong_am.LiteNes.Cpu.Alu.Range.{on_load_a-IsNes}
use wukong_am.LiteNes.Cpu.Stack.{
  set_pc, set_sp, set_p, cpu_nmi_interrupt_address, cpu_reset_interrupt_address, cpu_stack_pushb,
  cpu_stack_pushw, cpu_stack_popb, cpu_stack_popw, cpu_op_jmp, cpu_op_jsr, cpu_op_rts, cpu_op_brk,
  cpu_op_rti, cpu_op_php, cpu_op_pha, cpu_op_pla, cpu_op_plp,
}

pub set_pc-IsNes : (value : ℕ) {s : Nes} → IsNes s → IsNes (set_pc value s)
unfolding set_pc
set_pc-IsNes value {s} h =
    let pc : u16 value < 65536 = mod-lt _ (omega arith) in
    let c : IsCpu (set_pc value s).cpu = assumption (pc, h.cpu) in set_cpu-IsNes h c

pub set_sp-IsNes : (value : ℕ) {s : Nes} → IsNes s → IsNes (set_sp value s)
unfolding set_sp
set_sp-IsNes value {s} h =
    let sp : u8 value < 256 = mod-lt _ (omega arith) in
    let c : IsCpu (set_sp value s).cpu = assumption (sp, h.cpu) in set_cpu-IsNes h c

pub set_p-IsNes : (value : ℕ) {s : Nes} → IsNes s → IsNes (set_p value s)
unfolding set_p
set_p-IsNes value {s} h =
    let p : u8 value < 256 = mod-lt _ (omega arith) in
    let c : IsCpu (set_p value s).cpu = assumption (p, h.cpu) in set_cpu-IsNes h c

pub nmi_address-IsRead : {s : Nes} → IsNes s → IsRead 65536 (cpu_nmi_interrupt_address s)
unfolding cpu_nmi_interrupt_address
nmi_address-IsRead h = memory_readw-IsRead 0xfffa h

pub reset_address-IsRead : {s : Nes} → IsNes s → IsRead 65536 (cpu_reset_interrupt_address s)
unfolding cpu_reset_interrupt_address
reset_address-IsRead h = memory_readw-IsRead 0xfffc h

pub pushb-IsNes : (value : ℕ) {s : Nes} → IsNes s → IsNes (cpu_stack_pushb value s)
unfolding cpu_stack_pushb
pushb-IsNes value h = memory_writeb-IsNes _ value (set_sp-IsNes _ h)

pub pushw-IsNes : (value : ℕ) {s : Nes} → IsNes s → IsNes (cpu_stack_pushw value s)
unfolding cpu_stack_pushw
pushw-IsNes value h = set_sp-IsNes _ (memory_writew-IsNes _ (u16 value) h)

popb-IsRead : {s : Nes} → IsNes s → IsRead 256 (cpu_stack_popb s)
unfolding cpu_stack_popb
popb-IsRead h = memory_readb-IsRead _ (set_sp-IsNes _ h)

popw-IsRead : {s : Nes} → IsNes s → IsRead 65536 (cpu_stack_popw s)
unfolding cpu_stack_popw
popw-IsRead h = memory_readw-IsRead _ (set_sp-IsNes _ h)

pub cpu_op_jmp-IsNes : {s : Nes} → IsNes s → IsNes (cpu_op_jmp s)
unfolding cpu_op_jmp
cpu_op_jmp-IsNes h = set_pc-IsNes _ h

pub cpu_op_jsr-IsNes : {s : Nes} → IsNes s → IsNes (cpu_op_jsr s)
unfolding cpu_op_jsr
cpu_op_jsr-IsNes h = set_pc-IsNes _ (pushw-IsNes _ h)

pub cpu_op_rts-IsNes : {s : Nes} → IsNes s → IsNes (cpu_op_rts s)
unfolding cpu_op_rts
cpu_op_rts-IsNes h = set_pc-IsNes _ (popw-IsRead h).1

pub cpu_op_brk-IsNes : {s : Nes} → IsNes s → IsNes (cpu_op_brk s)
unfolding cpu_op_brk
cpu_op_brk-IsNes h =
    set_pc-IsNes _ (nmi_address-IsRead (set_p-IsNes _ (pushb-IsNes _ (pushw-IsNes _ h)))).1

pub cpu_op_rti-IsNes : {s : Nes} → IsNes s → IsNes (cpu_op_rti s)
unfolding cpu_op_rti
cpu_op_rti-IsNes h = set_pc-IsNes _ (popw-IsRead (set_p-IsNes _ (popb-IsRead h).1)).1

pub cpu_op_php-IsNes : {s : Nes} → IsNes s → IsNes (cpu_op_php s)
unfolding cpu_op_php
cpu_op_php-IsNes h = pushb-IsNes _ h

pub cpu_op_pha-IsNes : {s : Nes} → IsNes s → IsNes (cpu_op_pha s)
unfolding cpu_op_pha
cpu_op_pha-IsNes h = pushb-IsNes _ h

pub cpu_op_pla-IsNes : {s : Nes} → IsNes s → IsNes (cpu_op_pla s)
unfolding cpu_op_pla
cpu_op_pla-IsNes h = let r = popb-IsRead h in on_load_a-IsNes _ r.0 r.1

pub cpu_op_plp-IsNes : {s : Nes} → IsNes s → IsNes (cpu_op_plp s)
unfolding cpu_op_plp
cpu_op_plp-IsNes h = set_p-IsNes _ (popb-IsRead h).1
