-- ===== src/LiteNes/Memory/Dma.antt =====
-- The DMA transfer of apps/litenes/src/memory.c: a write to 0x4014 copies a page of the processor's
-- memory to the sprite memory.
use wukong_am.Base.{ℕ}
use wukong_am.LiteNes.Ppu.{Ppu, ppu_sprram_write}
use wukong_am.LiteNes.Machine.{Nes}
use wukong_am.LiteNes.Memory.{cpu_ram_read}

-- The state after one byte of the loop.
sprite : (s : Nes) (from : ℕ) (ppu : Ppu) → Ppu
sprite s from ppu = ppu_sprram_write ppu (cpu_ram_read s from)
