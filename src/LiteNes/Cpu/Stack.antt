-- ===== src/LiteNes/Cpu/Stack.antt =====
-- apps/litenes/src/cpu.c: the stack, subroutines, interruptions, and the three vectors.
pub mod Laws
pub mod Range
use wukong_am.Base.{ℕ, ◌+◌, ◌-◌, ◌^◌, bit_and, bit_or, u8, u16}
use wukong_am.LiteNes.Machine.{Nes}
use wukong_am.LiteNes.Memory.{memory_readb, memory_readw, memory_writeb, memory_writew}
use wukong_am.LiteNes.Cpu.Alu.{load_a}
use wukong_am.LiteNes.Cpu.Flags.{on_cpu}

unfoldable pub set_pc : ℕ → Nes → Nes
set_pc value s = on_cpu (λ c. record c { pc = u16 value }) s

pub set_sp : ℕ → Nes → Nes
set_sp value s = on_cpu (λ c. record c { sp = u8 value }) s

unfoldable pub set_p : ℕ → Nes → Nes
set_p value s = on_cpu (λ c. record c { p = u8 value }) s

unfoldable pub cpu_nmi_interrupt_address : Nes → ℕ × Nes
cpu_nmi_interrupt_address s = memory_readw s 0xfffa

pub cpu_reset_interrupt_address : Nes → ℕ × Nes
cpu_reset_interrupt_address s = memory_readw s 0xfffc

pub cpu_irq_interrupt_address : Nes → ℕ × Nes
cpu_irq_interrupt_address s = memory_readw s 0xfffe

pub cpu_stack_pushb : ℕ → Nes → Nes
cpu_stack_pushb value s = memory_writeb (set_sp (s.cpu.sp + 2 ^ 8 - 1) s) (0x100 + s.cpu.sp) value

pub cpu_stack_pushw : ℕ → Nes → Nes
cpu_stack_pushw value s =
    let s' = memory_writew s (0xff + s.cpu.sp) (u16 value) in set_sp (s'.cpu.sp + 2 ^ 8 - 2) s'

pub cpu_stack_popb : Nes → ℕ × Nes
cpu_stack_popb s = let s' = set_sp (s.cpu.sp + 1) s in memory_readb s' (0x100 + s'.cpu.sp)

pub cpu_stack_popw : Nes → ℕ × Nes
cpu_stack_popw s = let s' = set_sp (s.cpu.sp + 2) s in memory_readw s' (0xff + s'.cpu.sp)

pub cpu_op_jmp : Nes → Nes
cpu_op_jmp s = set_pc s.op_address s

pub cpu_op_jsr : Nes → Nes
cpu_op_jsr s = set_pc s.op_address (cpu_stack_pushw (s.cpu.pc + 2 ^ 16 - 1) s)

pub cpu_op_rts : Nes → Nes
cpu_op_rts s = let (address, s') = cpu_stack_popw s in set_pc (address + 1) s'

pub cpu_op_brk : Nes → Nes
cpu_op_brk s =
    let s1 = cpu_stack_pushb s.cpu.p (cpu_stack_pushw (s.cpu.pc + 2 ^ 16 - 1) s) in
    let (address, s2) = cpu_nmi_interrupt_address (set_p (bit_or s1.cpu.p 0x30) s1) in
    set_pc address s2

unfoldable pub cpu_op_rti : Nes → Nes
cpu_op_rti s =
    let (flags, s1) = cpu_stack_popb s in
    let (address, s2) = cpu_stack_popw (set_p (bit_or flags 0x20) s1) in set_pc address s2

pub cpu_op_php : Nes → Nes
cpu_op_php s = cpu_stack_pushb (bit_or s.cpu.p 0x30) s

pub cpu_op_pha : Nes → Nes
cpu_op_pha s = cpu_stack_pushb s.cpu.a s

pub cpu_op_pla : Nes → Nes
cpu_op_pla s = let (value, s') = cpu_stack_popb s in on_cpu (load_a value) s'

pub cpu_op_plp : Nes → Nes
cpu_op_plp s = let (flags, s') = cpu_stack_popb s in set_p (bit_or (bit_and flags 0xef) 0x20) s'
