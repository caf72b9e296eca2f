-- ===== src/LiteNes/Cpu/Run.antt =====
-- apps/litenes/src/cpu.c: start, reset, interrupt, and the loop that runs instructions.
pub mod Interrupt
pub mod Laws
pub mod Range
use wukong_am.Base.{ℕ, zero, suc, ◌+◌, ◌-◌, ◌/◌, ◌^◌, Option, none, some, ◌==◌, if◌then◌else◌}
use wukong_am.Base.{bit_or, u64, false}
use wukong_am.LiteNes.Machine.{Nes}
use wukong_am.LiteNes.Memory.{memory_readb}
use wukong_am.LiteNes.Ppu.{ppu_generates_nmi}
use wukong_am.LiteNes.Addressing.{address}
use wukong_am.LiteNes.Cpu.Flags.{unused_bp, cpu_modify_flag, on_cpu}
use wukong_am.LiteNes.Cpu.Stack.{
  set_pc, set_sp, set_p, cpu_stack_pushb, cpu_stack_pushw, cpu_nmi_interrupt_address,
  cpu_reset_interrupt_address,
}
use wukong_am.LiteNes.Cpu.Ops.{handler}
use wukong_am.LiteNes.Cpu.Table.{Entry, cpu_op_table}

-- The registers that `cpu_init` sets.
pub cpu_init : Nes → Nes
cpu_init s = record s { cpu = record (s.cpu) { p = 0x24; sp = 0; a = 0; x = 0; y = 0 } }

pub cpu_reset : Nes → Nes
cpu_reset s =
    let (address, s1) = cpu_reset_interrupt_address s in
    let s2 = set_sp (s1.cpu.sp + 2 ^ 8 - 3) (set_pc address s1) in set_p (bit_or s2.cpu.p 0x04) s2

pub cpu_interrupt : Nes → Nes
cpu_interrupt s =
    if ppu_generates_nmi s.ppu
    then (let s1 = on_cpu (cpu_modify_flag unused_bp false) (set_p (bit_or s.cpu.p 0x04) s) in
        let s2 = cpu_stack_pushw s1.cpu.pc s1 in
        let (address, s3) = cpu_nmi_interrupt_address (cpu_stack_pushb s2.cpu.p s2) in
        set_pc address s3)
    else s

pub cpu_clock : Nes → ℕ
cpu_clock s = s.cpu_cycles

-- `op_code = memory_readb(cpu.PC++)`.
unfoldable pub fetch : Nes → ℕ × Nes
fetch s = memory_readb (set_pc (s.cpu.pc + 1) s) s.cpu.pc

-- The two calls through the tables, and the row's cycles; an unset opcode does nothing and has 0.
unfoldable pub execute : Option Entry → Nes → ℕ × Nes
execute none s = (0, s)
execute (some e) s = (e.cycles, handler e.op (address e.mode s))

-- The end of a round. `cpu_cycles` is an unsigned 64-bit number from which the cycles are taken.
unfoldable pub charge : ℕ → Nes → Nes
charge used s = record s { cpu_cycles = u64 (s.cpu_cycles + 2 ^ 64 - used); op_cycles = 0 }

-- One round of the loop of `cpu_run`, with the cycles that it takes.
unfoldable pub cpu_step : Nes → ℕ × Nes
cpu_step s =
    let (op_code, s1) = fetch s in
    let (cycles, s2) = execute (cpu_op_table op_code) s1 in
    let used = cycles + s2.op_cycles in (used, charge used s2)

-- The loop, on fuel. A remainder below 0 ends it just as 0 does.
pub run_loop : ℕ → ℕ → Nes → Option Nes
run_loop zero cycles s = none
run_loop (suc fuel) cycles s =
    let rest = run_loop fuel (cycles - (cpu_step s).0) (cpu_step s).1 in
    if cycles == 0 then some s else rest

-- `fuel` bounds the rounds.
pub cpu_run : ℕ → ℕ → Nes → Option Nes
cpu_run fuel cycles s = run_loop fuel (cycles / 3) s
