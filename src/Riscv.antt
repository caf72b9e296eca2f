-- ===== src/Riscv.antt =====
-- The XiangShan platform of am/src/xs: physical memory protection, the interrupt controller and the
-- barrier of the processors; and the page tables and the traps of am/src/nemu.
pub mod Plic
pub mod Pmp
pub mod Vme
pub mod Mpe
pub mod Cte
mod Tests
