-- ===== src/LiteNes/Memory/Range.antt =====
-- The memory map hands out bytes, and keeps the machine in range.
use wukong_am.Base.{ℕ, zero, suc, ◌+◌, ◌*◌, ◌<◌, ◌==◌, arith, bit_and}
use wukong_am.Base.{if-intro, u8, u16, ◌>>>◌}
use wukong_am.Base.Bytes.{IsBytes, write-IsBytes}
use wukong_am.LiteNes.Psg.Laws.{psg_io_read-lt}
use wukong_am.LiteNes.Ppu.{Ppu, IsPpu, ppu_io_write}
use wukong_am.LiteNes.Ppu.Range.{
  ppu_io_read-IsRead, ppu_io_write-IsPpu, ppu_sprram_write-IsPpu, ppu_copy-IsPpu,
}
use wukong_am.LiteNes.Mmc.{mmc_read, mmc_write}
use wukong_am.LiteNes.Machine.{Nes, IsNes}
use wukong_am.LiteNes.Memory.{
  cpu_ram_read, cpu_ram_write, memory_readb, dma, memory_writeb, memory_readw, memory_writew,
}

-- What a read returns: a number of at most `m - 1`, and a machine in range.
abbrev pub IsRead : ℕ → ℕ × Nes → Type 0
IsRead m r = (r.0 < m) × IsNes r.1

pub memory_readb-IsRead : {s : Nes} (address : ℕ) → IsNes s → IsRead 256 (memory_readb s address)
unfolding memory_readb cpu_ram_read mmc_read
memory_readb-IsRead {s} address0 h =
    let address = u16 address0 in
    let page = address >>> 13 in
    let port = ppu_io_read-IsRead address h.ppu in
    let joystick = psg_io_read-lt s.psg address in
    if-intro (IsRead 256) (page == 0) (h.ram _, h)
      (if-intro (IsRead 256) (page == 1) (assumption (port.0, port.1)) (
        if-intro (IsRead 256) (page == 2) (assumption joystick)
          (if-intro (IsRead 256) (page == 3) (h.ram _, h) (h.memory _, h))))

dma-IsPpu :
    (left from : ℕ) (s : Nes) {ppu : Ppu} → IsBytes s.ram → IsPpu ppu → IsPpu (dma left from s ppu)
unfolding dma cpu_ram_read
dma-IsPpu zero from s h k = k
dma-IsPpu (suc left) from s h k = dma-IsPpu left (from + 1) s h (ppu_sprram_write-IsPpu _ (h _) k)

cpu_ram_write-IsNes :
    {s : Nes} (address value : ℕ) → value < 256 → IsNes s → IsNes (cpu_ram_write s address value)
unfolding cpu_ram_write
cpu_ram_write-IsNes {s} address value k h =
    assumption (write-IsBytes s.ram (bit_and (u16 address) 0x7ff) value h.ram k)

pub memory_writeb-IsNes :
    {s : Nes} (address value : ℕ) → IsNes s → IsNes (memory_writeb s address value)
unfolding memory_writeb mmc_write
memory_writeb-IsNes {s} address0 value0 h =
    let address = u16 address0 in
    let value = u8 value0 in
    let page = address >>> 13 in
    let k : value < 256 = omega arith in
    let transfer : IsPpu (dma 256 (0x100 * value) s s.ppu) =
      dma-IsPpu 256 (0x100 * value) s h.ram h.ppu in
    let port : IsPpu (ppu_io_write s.ppu address value) =
      ppu_io_write-IsPpu address value k h.ppu in
    let stored : IsBytes (mmc_write s.mmc s.ppu address value).0.memory =
      write-IsBytes s.mmc.memory address value h.memory k in
    let copied : IsPpu (mmc_write s.mmc s.ppu address value).1 =
      if-intro IsPpu (s.mmc.id == 3) (ppu_copy-IsPpu 0 _ 0x2000 (λ i. h.chr_pages _) h.ppu) h.ppu in
    if-intro IsNes (address == 0x4014) (assumption transfer) (
      if-intro IsNes (page == 0) (cpu_ram_write-IsNes _ value k h) (
        if-intro IsNes (page == 1) (assumption port) (
          if-intro IsNes (page == 2) (assumption h) (
            if-intro IsNes (page == 3) (cpu_ram_write-IsNes _ value k h)
              (assumption (stored, copied))))))

pub memory_readw-IsRead : {s : Nes} (address : ℕ) → IsNes s → IsRead 65536 (memory_readw s address)
unfolding memory_readw
memory_readw-IsRead {s} address h =
    let lo = memory_readb-IsRead address h in
    let hi = memory_readb-IsRead (u16 address + 1) lo.1 in (omega arith, hi.1)

pub memory_writew-IsNes :
    {s : Nes} (address value : ℕ) → IsNes s → IsNes (memory_writew s address value)
unfolding memory_writew
memory_writew-IsNes {s} address value h =
    memory_writeb-IsNes (u16 address + 1) (value >>> 8)
      (memory_writeb-IsNes address (bit_and value 0xff) h)
