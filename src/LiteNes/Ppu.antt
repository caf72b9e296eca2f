-- ===== src/LiteNes/Ppu.antt =====
-- apps/litenes/src/ppu.c, with its state of apps/litenes/include/ppu.h: the control bits, the
-- address space of the picture unit, and its registers as the processor sees them.
pub mod Laws
pub mod Mask
pub mod Range
use wukong_am.Base.{ℕ, ◌<◌, ◌+◌, ◌-◌, Bool, true, false, ◌||◌, ◌==◌, ltb, not}
use wukong_am.Base.{if◌then◌else◌, bit_and, bit_or, bit_xor, u8, u16, ◌<<<◌}
use wukong_am.Base.Bytes.{Array, IsBytes, write, copy}
use wukong_am.LiteNes.Bits.{common_bit_set, common_modify_bit}

-- `PPU_STATE` and the static variables of ppu.c that its registers use. `scanline` is an `int`,
-- held as a 32-bit pattern.
pub record Ppu : Type 0 where
  pub ctrl : ℕ
  pub mask : ℕ
  pub status : ℕ
  pub oam_addr : ℕ
  pub scroll : ℕ
  pub scroll_x : ℕ
  pub scroll_y : ℕ
  pub addr : ℕ
  pub ppu_data : ℕ
  pub scroll_received_x : Bool
  pub addr_received_high_byte : Bool
  pub ready : Bool
  pub mirroring : ℕ
  pub mirroring_xor : ℕ
  pub scanline : ℕ
  pub first_read_2007 : Bool
  pub addr_latch : ℕ
  pub sprram : Array
  pub ram : Array
  pub sprite_hit_occured : Bool
  pub latch : ℕ

pub ppu_base_nametable_address : Ppu → ℕ
ppu_base_nametable_address s =
    let i = bit_and s.ctrl 3 in
    if i == 0 then 0x2000 else if i == 1 then 0x2400 else if i == 2 then 0x2800 else 0x2c00

pub ppu_vram_address_increment : Ppu → ℕ
ppu_vram_address_increment s = if common_bit_set s.ctrl 2 then 32 else 1

pub ppu_sprite_pattern_table_address : Ppu → ℕ
ppu_sprite_pattern_table_address s = if common_bit_set s.ctrl 3 then 0x1000 else 0

pub ppu_background_pattern_table_address : Ppu → ℕ
ppu_background_pattern_table_address s = if common_bit_set s.ctrl 4 then 0x1000 else 0

unfoldable pub ppu_sprite_height : Ppu → ℕ
ppu_sprite_height s = if common_bit_set s.ctrl 5 then 16 else 8

unfoldable pub ppu_generates_nmi : Ppu → Bool
ppu_generates_nmi s = common_bit_set s.ctrl 7

unfoldable pub ppu_set_sprite_0_hit : Ppu → Bool → Ppu
ppu_set_sprite_0_hit s yesno = record s { status = common_modify_bit 8 s.status 6 yesno }

pub ppu_set_in_vblank : Ppu → Bool → Ppu
ppu_set_in_vblank s yesno = record s { status = common_modify_bit 8 s.status 7 yesno }

pub ppu_get_real_ram_address : ℕ → ℕ
ppu_get_real_ram_address address =
    if ltb address 0x2000
    then address
    else if ltb address 0x3f00
    then address
    else if ltb address 0x4000
    then (let a = bit_or 0x3f00 (bit_and address 0x1f) in
        if (a == 0x3f10) || (a == 0x3f14) || (a == 0x3f18) || (a == 0x3f1c) then a - 0x10 else a)
    else 0xffff

pub ppu_ram_read : Ppu → ℕ → ℕ
ppu_ram_read s address = s.ram (ppu_get_real_ram_address (u16 address))

pub ppu_ram_write : Ppu → ℕ → ℕ → Ppu
ppu_ram_write s address value = record s {
  ram = write s.ram (ppu_get_real_ram_address (u16 address)) value;
}

unfoldable pub ppu_copy : Ppu → ℕ → Array → ℕ → Ppu
ppu_copy s address source length = record s { ram = copy s.ram address source length }

-- The case of `ppu_io_read` for the status register.
pub read_status : Ppu → ℕ × Ppu
read_status s =
    let cleared = ppu_set_sprite_0_hit (ppu_set_in_vblank s false) false in
    (
      s.status,
      record cleared {
        scroll_received_x = false;
        scroll = 0;
        addr_received_high_byte = false;
        latch = s.status;
        addr_latch = 0;
        first_read_2007 = true;
      },
    )

-- Its case for the data register: the first read after an address was set does not advance.
pub read_data : Ppu → ℕ × Ppu
read_data s =
    let value = ppu_ram_read s s.addr in
    let next = u16 (s.addr + ppu_vram_address_increment s) in
    (
      value,
      record s {
        latch = if ltb s.addr 0x3f00 then value else 0;
        first_read_2007 = false;
        addr = if s.first_read_2007 then s.addr else next;
      },
    )

-- `ppu.PPUADDR &= 0x3FFF`, with which every access to a register begins.
pub wrap_addr : Ppu → Ppu
wrap_addr s = record s { addr = bit_and s.addr 0x3fff }

pub ppu_io_read : Ppu → ℕ → ℕ × Ppu
ppu_io_read s0 address =
    let s = wrap_addr s0 in
    let port = bit_and address 7 in
    if port == 2
    then read_status s
    else if port == 4
    then (s.sprram s.oam_addr, record s { latch = s.sprram s.oam_addr })
    else if port == 7
    then read_data s
    else (0xff, s)

unfoldable pub ppu_sprram_write : Ppu → ℕ → Ppu
ppu_sprram_write s value = record s {
  sprram = write s.sprram s.oam_addr value;
  oam_addr = u8 (s.oam_addr + 1);
}

-- The cases of `ppu_io_write` for the scroll, the address and the data register.
pub write_scroll : Ppu → ℕ → Ppu
write_scroll s value = record s {
  scroll_y = if s.scroll_received_x then value else s.scroll_y;
  scroll_x = if s.scroll_received_x then s.scroll_x else value;
  scroll_received_x = not s.scroll_received_x;
}

pub write_addr : Ppu → ℕ → Ppu
write_addr s value = record s {
  addr = if s.addr_received_high_byte then u16 ((s.addr_latch <<< 8) + value) else s.addr;
  addr_latch = if s.addr_received_high_byte then s.addr_latch else value;
  addr_received_high_byte = not s.addr_received_high_byte;
  first_read_2007 = true;
}

pub write_data : Ppu → ℕ → Ppu
write_data s value =
    if ltb 0x1fff s.addr || ltb s.addr 0x4000
    then ppu_ram_write (ppu_ram_write s (bit_xor s.addr s.mirroring_xor) value) s.addr value
    else ppu_ram_write s s.addr value

pub ppu_io_write : Ppu → ℕ → ℕ → Ppu
ppu_io_write s0 address value =
    let s = record (wrap_addr s0) { latch = value } in
    let port = bit_and address 7 in
    if port == 0
    then (if s.ready then record s { ctrl = value } else s)
    else if port == 1
    then (if s.ready then record s { mask = value } else s)
    else if port == 3
    then record s { oam_addr = value }
    else if port == 4
    then ppu_sprram_write s value
    else if port == 5
    then write_scroll s value
    else if port == 6
    then (if s.ready then write_addr s value else s)
    else if port == 7
    then write_data s value
    else s

-- The registers after `ppu_init`; its tables of pixel values belong to the rendering.
pub ppu_init : Ppu → Ppu
ppu_init s = record s {
  ctrl = 0;
  mask = 0;
  oam_addr = 0;
  scroll_x = 0;
  scroll_y = 0;
  addr = 0;
  status = bit_or 0 0xa0;
  ppu_data = 0;
  first_read_2007 = true;
}

pub ppu_set_mirroring : Ppu → ℕ → Ppu
ppu_set_mirroring s mode = record s { mirroring = mode; mirroring_xor = 0x400 <<< mode }

-- Every register and memory of the picture unit is in range of its type.
pub record IsPpu (s : Ppu) : Type 0 where
  pub ctrl : s.ctrl < 256
  pub mask : s.mask < 256
  pub status : s.status < 256
  pub oam_addr : s.oam_addr < 256
  pub scroll_x : s.scroll_x < 256
  pub scroll_y : s.scroll_y < 256
  pub addr : s.addr < 65536
  pub addr_latch : s.addr_latch < 256
  pub latch : s.latch < 256
  pub sprram : IsBytes s.sprram
  pub ram : IsBytes s.ram
