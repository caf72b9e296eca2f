-- ===== src/LiteNes/Cpu.antt =====
-- The 6502 processor of apps/litenes/src/cpu.c: flags, instructions, the instruction table, and the
-- loop that runs it.
pub mod Flags
pub mod Alu
pub mod Shift
pub mod Stack
pub mod Move
pub mod Ops
pub mod Table
pub mod Run
