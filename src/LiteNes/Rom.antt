-- ===== src/LiteNes/Rom.antt =====
-- apps/litenes/src/fce.c: loading a cartridge image in the iNES format, and the start of the console.
pub mod Laws
use wukong_am.Base.{ℕ, zero, suc, ◌+◌, ◌*◌, Bool, not, ◌&&◌, ◌||◌, ◌==◌, if◌then◌else◌}
use wukong_am.Base.{Option, none, some, bit_and, ◌>>>◌, ◌<<<◌}
use wukong_am.Base.Bytes.{Array}
use wukong_am.LiteNes.Ppu.{ppu_copy, ppu_init, ppu_set_mirroring}
use wukong_am.LiteNes.Mmc.{Mmc, mmc_copy, mmc_append_chr_rom_page}
use wukong_am.LiteNes.Machine.{Nes}
use wukong_am.LiteNes.Cpu.Run.{cpu_init, cpu_reset}

-- `romread`: the bytes from `buf` on, and `buf` behind the next `size` of them.
pub romread : Array → ℕ → ℕ → Array × ℕ
romread rom buf size = ((λ i. rom (buf + i)), buf + size)

-- The field `rom_type` of the header, of 16 bits.
unfoldable pub rom_type : Array → ℕ
rom_type header = header 6 + (header 7 <<< 8)

-- Whether the header begins with `NES\x1A`.
unfoldable pub is_signature : Array → Bool
is_signature header =
    (header 0 == 0x4e) && (header 1 == 0x45) && (header 2 == 0x53) && (header 3 == 0x1a)

pub set_mmc : Mmc → Nes → Nes
set_mmc m s = record s { mmc = m }

-- The program blocks; one block is repeated twice.
pub copy_program : Array → ℕ → Nes → Nes
copy_program blk count s =
    if count == 1
    then set_mmc (mmc_copy (mmc_copy s.mmc 0x8000 blk 0x4000) 0xc000 blk 0x4000) s
    else set_mmc (mmc_copy s.mmc 0x8000 blk 0x8000) s

-- The loop over the character pages, from page `i` on with `left` to go; the assertion of
-- `mmc_append_chr_rom_page` may end the program.
pub load_pages : ℕ → ℕ → Array → ℕ → Nes → Option Nes
load_pages zero i rom buf s = some s
load_pages (suc left) i rom buf s =
    let (blk, next) = romread rom buf 0x2000 in
    elim (mmc_append_chr_rom_page s.mmc blk) [
      | none ↦ none
      | some m ↦
          let s1 = set_mmc m s in
          load_pages left (i + 1) rom next
            (if i == 0 then record s1 { ppu = ppu_copy s1.ppu 0 blk 0x2000 } else s1)
    ]

-- The result is the return value, 0 or `2 ^ 32 - 1` for -1, and the machine.
pub fce_load_rom : Array → Nes → Option (ℕ × Nes)
fce_load_rom rom s =
    let (header, buf) = romread rom 0 16 in
    let id = bit_and (rom_type header) 0xf0 >>> 4 in
    let s1 = set_mmc (record (s.mmc) { id = id }) s in
    let (blk, next) = romread rom buf (header 4 * 0x4000) in
    if not (is_signature header)
    then some (0xffff_ffff, s)
    else if not ((id == 0) || (id == 3))
    then some (0xffff_ffff, s1)
    else elim (load_pages (header 5) 0 rom next (copy_program blk (header 4) s1)) [
      | none ↦ none
      | some t ↦ some (0, t)
    ]

pub fce_init : Array → Nes → Nes
fce_init rom s =
    let ppu' = ppu_set_mirroring (ppu_init (cpu_init s).ppu) (bit_and (rom_type rom) 1) in
    cpu_reset (record (cpu_init s) { ppu = ppu' })
