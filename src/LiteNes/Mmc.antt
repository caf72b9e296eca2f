-- ===== src/LiteNes/Mmc.antt =====
-- apps/litenes/src/mmc.c: the cartridge. The pages of the character ROM are one array, page after
-- page; `number` is `mmc_chr_pages_number`.
use wukong_am.Base.{ℕ, ◌+◌, ◌*◌, Option, none, some, ltb, if◌then◌else◌, ◌==◌, bit_and}
use wukong_am.Base.Bytes.{Array, write, copy}
use wukong_am.LiteNes.Ppu.{Ppu, ppu_copy}

pub record Mmc : Type 0 where
  pub id : ℕ
  pub chr_pages : Array
  pub number : ℕ
  pub memory : Array

abbrev pub mmc_max_page_count : ℕ
mmc_max_page_count = 1

unfoldable pub mmc_read : Mmc → ℕ → ℕ
mmc_read m address = m.memory address

-- Mapper 3 copies a page to the picture unit before the byte is stored.
unfoldable pub mmc_write : Mmc → Ppu → ℕ → ℕ → Mmc × Ppu
mmc_write m s address value = (
  record m { memory = write m.memory address value },
  (if m.id == 3 then ppu_copy s 0 (λ i. m.chr_pages (bit_and value 3 * 0x2000 + i)) 0x2000 else s),
)

unfoldable pub mmc_copy : Mmc → ℕ → Array → ℕ → Mmc
mmc_copy m address source length = record m { memory = copy m.memory address source length }

-- `none` is the failed assertion.
unfoldable pub mmc_append_chr_rom_page : Mmc → Array → Option Mmc
mmc_append_chr_rom_page m source =
    if ltb m.number mmc_max_page_count
    then some (record m {
      chr_pages = copy m.chr_pages (m.number * 0x2000) source 0x2000;
      number = m.number + 1;
    })
    else none
