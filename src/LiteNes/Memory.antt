-- ===== src/LiteNes/Memory.antt =====
-- apps/litenes/src/memory.c and the two accessors of the processor's memory in cpu.c: the memory map.
-- A read may change the unit that it reads, so it returns the machine too.
pub mod Dma
pub mod Laws
pub mod Range
use wukong_am.Base.{ℕ, zero, suc, ◌+◌, ◌*◌, ◌==◌, if◌then◌else◌, bit_and}
use wukong_am.Base.{u8, u16, ◌<<<◌, ◌>>>◌}
use wukong_am.Base.Bytes.{write}
use wukong_am.LiteNes.Psg.{psg_io_read, psg_io_write}
use wukong_am.LiteNes.Ppu.{Ppu, ppu_io_read, ppu_io_write, ppu_sprram_write}
use wukong_am.LiteNes.Mmc.{mmc_read, mmc_write}
use wukong_am.LiteNes.Machine.{Nes}

unfoldable pub cpu_ram_read : Nes → ℕ → ℕ
cpu_ram_read s address = s.ram (bit_and (u16 address) 0x7ff)

pub cpu_ram_write : Nes → ℕ → ℕ → Nes
cpu_ram_write s address value = record s { ram = write s.ram (bit_and (u16 address) 0x7ff) value }

-- The arguments are converted to `word` and `byte` by the call.
unfoldable pub memory_readb : Nes → ℕ → ℕ × Nes
memory_readb s address0 =
    let address = u16 address0 in
    let page = address >>> 13 in
    if page == 0
    then (cpu_ram_read s (bit_and address 0x7ff), s)
    else if page == 1
    then (let (value, ppu') = ppu_io_read s.ppu address in (value, record s { ppu = ppu' }))
    else if page == 2
    then (let (value, psg') = psg_io_read s.psg address in (value, record s { psg = psg' }))
    else if page == 3
    then (cpu_ram_read s (bit_and address 0x1fff), s)
    else (mmc_read s.mmc address, s)

-- The loop of the DMA transfer, with `left` bytes to go.
pub dma : ℕ → ℕ → Nes → Ppu → Ppu
dma zero from s ppu = ppu
dma (suc left) from s ppu = dma left (from + 1) s (ppu_sprram_write ppu (cpu_ram_read s from))

pub memory_writeb : Nes → ℕ → ℕ → Nes
memory_writeb s address0 value0 =
    let address = u16 address0 in
    let value = u8 value0 in
    let page = address >>> 13 in
    if address == 0x4014
    then record s { ppu = dma 256 (0x100 * value) s s.ppu }
    else if page == 0
    then cpu_ram_write s (bit_and address 0x7ff) value
    else if page == 1
    then record s { ppu = ppu_io_write s.ppu address value }
    else if page == 2
    then record s { psg = psg_io_write s.psg address value }
    else if page == 3
    then cpu_ram_write s (bit_and address 0x1fff) value
    else (let (mmc', ppu') = mmc_write s.mmc s.ppu address value in
        record s { mmc = mmc'; ppu = ppu' })

-- The low byte is read first.
pub memory_readw : Nes → ℕ → ℕ × Nes
memory_readw s address =
    let (lo, s1) = memory_readb s address in
    let (hi, s2) = memory_readb s1 (u16 address + 1) in (u16 (lo + (hi <<< 8)), s2)

pub memory_writew : Nes → ℕ → ℕ → Nes
memory_writew s address value =
    memory_writeb (memory_writeb s address (bit_and value 0xff)) (u16 address + 1) (value >>> 8)
