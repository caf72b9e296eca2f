-- ===== src/LiteNes/Machine.antt =====
-- The state of the console: the processor of apps/litenes/include/cpu-internal.h with its memory and
-- the argument of the current instruction (the globals of apps/litenes/src/cpu.c), and the state of
-- the other units. `op_address` is an `int`, held as its 32-bit pattern.
use wukong_am.Base.{ℕ, ◌<◌}
use wukong_am.Base.Bytes.{Array, IsBytes}
use wukong_am.LiteNes.Ppu.{Ppu, IsPpu}
use wukong_am.LiteNes.Psg.{Psg}
use wukong_am.LiteNes.Mmc.{Mmc}

-- `CPU_STATE`: 16 bits of `pc`, 8 of each other register.
pub record Cpu : Type 0 where
  pub pc : ℕ
  pub sp : ℕ
  pub a : ℕ
  pub x : ℕ
  pub y : ℕ
  pub p : ℕ

pub record Nes : Type 0 where
  pub cpu : Cpu
  pub ram : Array
  pub op_value : ℕ
  pub op_address : ℕ
  pub op_cycles : ℕ
  pub cpu_cycles : ℕ
  pub ppu : Ppu
  pub psg : Psg
  pub mmc : Mmc

-- Every register and every byte of memory is in range of its type.
pub record IsCpu (c : Cpu) : Type 0 where
  pub pc : c.pc < 65536
  pub sp : c.sp < 256
  pub a : c.a < 256
  pub x : c.x < 256
  pub y : c.y < 256
  pub p : c.p < 256

pub record IsNes (s : Nes) : Type 0 where
  pub cpu : IsCpu s.cpu
  pub ram : IsBytes s.ram
  pub op_value : s.op_value < 256
  pub ppu : IsPpu s.ppu
  pub chr_pages : IsBytes s.mmc.chr_pages
  pub memory : IsBytes s.mmc.memory
