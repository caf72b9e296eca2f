-- ===== src/LiteNes/Ppu/Range.antt =====
-- The registers of the picture unit stay in range, whatever the processor reads and writes.
use wukong_am.Base.{ℕ, ◌+◌, ◌<◌, ◌%◌, ◌==◌, ◌||◌, false, arith, bit_and, bit_xor}
use wukong_am.Base.{if-intro, ltb}
use wukong_am.Base.Bits.{bit_and-lt}
use wukong_am.Base.Bytes.{Array, IsBytes, write-IsBytes, copy-IsBytes}
use wukong_am.LiteNes.Bits.Laws.{common_modify_bit-lt}
use wukong_am.LiteNes.Ppu.{
  Ppu, IsPpu, ppu_set_sprite_0_hit, ppu_set_in_vblank, ppu_ram_read, ppu_ram_write, ppu_copy,
  read_status, read_data, wrap_addr, ppu_io_read, ppu_sprram_write, write_scroll, write_addr,
  write_data, ppu_io_write, ppu_get_real_ram_address,
}

-- What a read returns: a byte, and a state in range.
abbrev pub IsRead : ℕ × Ppu → Type 0
IsRead r = (r.0 < 256) × IsPpu r.1

wrap_addr-IsPpu : {s : Ppu} → IsPpu s → IsPpu (wrap_addr s)
unfolding wrap_addr
wrap_addr-IsPpu {s} h = assumption (bit_and-lt 16 s.addr 0x3fff h.addr)

read_status-IsRead : {s : Ppu} → IsPpu s → IsRead (read_status s)
unfolding read_status ppu_set_sprite_0_hit ppu_set_in_vblank
read_status-IsRead {s} h =
    let zero_latch : 0 < 256 = omega arith in
    assumption (common_modify_bit-lt 8 (ppu_set_in_vblank s false).status 6 false, zero_latch)

read_data-IsRead : {s : Ppu} → IsPpu s → IsRead (read_data s)
unfolding read_data ppu_ram_read
read_data-IsRead {s} h =
    let byte : ppu_ram_read s s.addr < 256 = h.ram _ in
    let next : (read_data s).1.addr < 65536 = ground (arith, h.addr) in
    let latch : (read_data s).1.latch < 256 = ground (arith, byte) in assumption (byte, next, latch)

pub ppu_io_read-IsRead : {s : Ppu} (address : ℕ) → IsPpu s → IsRead (ppu_io_read s address)
unfolding ppu_io_read
ppu_io_read-IsRead {s} address h =
    let w : IsPpu (wrap_addr s) = wrap_addr-IsPpu h in
    let port = bit_and address 7 in
    let t = wrap_addr s in
    let byte : t.sprram t.oam_addr < 256 = w.sprram _ in
    let other : 255 < 256 = omega arith in
    if-intro IsRead (port == 2) (read_status-IsRead w) (
      if-intro IsRead (port == 4) (assumption byte)
        (if-intro IsRead (port == 7) (read_data-IsRead w) (other, w)))

pub ppu_sprram_write-IsPpu :
    {s : Ppu} (value : ℕ) → value < 256 → IsPpu s → IsPpu (ppu_sprram_write s value)
unfolding ppu_sprram_write
ppu_sprram_write-IsPpu {s} value k h =
    let next : (s.oam_addr + 1) % 256 < 256 = omega arith in
    assumption (write-IsBytes s.sprram s.oam_addr value h.sprram k, next)

ppu_ram_write-IsPpu :
    {s : Ppu} (address value : ℕ) → value < 256 → IsPpu s → IsPpu (ppu_ram_write s address value)
unfolding ppu_ram_write
ppu_ram_write-IsPpu {s} address value k h =
    assumption (write-IsBytes s.ram (ppu_get_real_ram_address (address % 65536)) value h.ram k)

pub ppu_copy-IsPpu :
    {s : Ppu} (address : ℕ) (source : Array) (length : ℕ)
    → IsBytes source
    → IsPpu s
    → IsPpu (ppu_copy s address source length)
unfolding ppu_copy
ppu_copy-IsPpu {s} address source length k h =
    assumption (copy-IsBytes s.ram address source length h.ram k)

write_scroll-IsPpu : {s : Ppu} (value : ℕ) → value < 256 → IsPpu s → IsPpu (write_scroll s value)
unfolding write_scroll
write_scroll-IsPpu {s} value k h =
    let x : (write_scroll s value).scroll_x < 256 = ground (arith, h.scroll_x) in
    let y : (write_scroll s value).scroll_y < 256 = ground (arith, h.scroll_y) in assumption (x, y)

write_addr-IsPpu : {s : Ppu} (value : ℕ) → value < 256 → IsPpu s → IsPpu (write_addr s value)
unfolding write_addr
write_addr-IsPpu {s} value k h =
    let addr : (write_addr s value).addr < 65536 = ground (arith, h.addr) in
    let latch : (write_addr s value).addr_latch < 256 = ground (arith, h.addr_latch) in
    assumption (addr, latch)

write_data-IsPpu : {s : Ppu} (value : ℕ) → value < 256 → IsPpu s → IsPpu (write_data s value)
unfolding write_data
write_data-IsPpu {s} value k h =
    if-intro IsPpu (ltb 0x1fff s.addr || ltb s.addr 0x4000)
      (ppu_ram_write-IsPpu s.addr value k
        (ppu_ram_write-IsPpu (bit_xor s.addr s.mirroring_xor) value k h))
      (ppu_ram_write-IsPpu s.addr value k h)

pub ppu_io_write-IsPpu :
    {s : Ppu} (address value : ℕ) → value < 256 → IsPpu s → IsPpu (ppu_io_write s address value)
unfolding ppu_io_write
ppu_io_write-IsPpu {s} address value k h =
    let w : IsPpu (wrap_addr s) = wrap_addr-IsPpu h in
    let t = record (wrap_addr s) { latch = value } in
    let v : IsPpu t = assumption k in
    let port = bit_and address 7 in
    let ctrl : IsPpu (record t { ctrl = value }) = assumption k in
    let mask : IsPpu (record t { mask = value }) = assumption k in
    let oam : IsPpu (record t { oam_addr = value }) = assumption k in
    if-intro IsPpu (port == 0) (if-intro IsPpu t.ready ctrl v) (
      if-intro IsPpu (port == 1) (if-intro IsPpu t.ready mask v) (
        if-intro IsPpu (port == 3) oam (
          if-intro IsPpu (port == 4) (ppu_sprram_write-IsPpu value k v) (
            if-intro IsPpu (port == 5) (write_scroll-IsPpu value k v) (
              if-intro IsPpu (port == 6) (if-intro IsPpu t.ready (write_addr-IsPpu value k v) v)
                (if-intro IsPpu (port == 7) (write_data-IsPpu value k v) v))))))
