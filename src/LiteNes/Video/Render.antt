-- ===== src/LiteNes/Video/Render.antt =====
-- apps/litenes/src/ppu.c: the pixels of a line. The line is one that is drawn, so `scanline` is not
-- negative; the tables of `ppu_init` for the colours are written as their entries.
pub mod Kept
pub mod Pixels
pub mod Tiles
pub mod Line
pub mod Sprites
use wukong_am.Base.{
  ℕ, zero, suc, ◌+◌, ◌-◌, ◌*◌, ◌/◌, ◌%◌, ◌^◌, Bool, true, false, ◌&&◌, ◌||◌, not, ◌==◌, ltb,
}
use wukong_am.Base.{if◌then◌else◌, u8, u16, u32, int_lt, bit_and, bit_or, ◌<<<◌, ◌>>>◌, truthy}
use wukong_am.Base.Bytes.{Array, write}
use wukong_am.LiteNes.Bits.{common_modify_bit}
use wukong_am.LiteNes.Machine.{Nes}
use wukong_am.LiteNes.Ppu.{
  Ppu, ppu_ram_read, ppu_base_nametable_address, ppu_background_pattern_table_address,
  ppu_sprite_pattern_table_address, ppu_sprite_height, ppu_set_sprite_0_hit,
}
use wukong_am.LiteNes.Ppu.Mask.{
  ppu_shows_background, ppu_shows_background_in_leftmost_8px, ppu_set_sprite_overflow,
}
use wukong_am.LiteNes.Video.{Video, draw}

-- `ppu_l_h_addition_table[l][h][x]` and the flipped one.
pub ppu_l_h_addition : ℕ → ℕ → ℕ → ℕ
ppu_l_h_addition l h x = bit_or (bit_and (h >>> (7 - x)) 1 <<< 1) (bit_and (l >>> (7 - x)) 1)

pub ppu_l_h_addition_flip : ℕ → ℕ → ℕ → ℕ
ppu_l_h_addition_flip l h x = bit_or (bit_and (h >>> x) 1 <<< 1) (bit_and (l >>> x) 1)

abbrev pub mirror_offset : Bool → ℕ → ℕ
mirror_offset mirror n = if mirror then n else 0

-- The colour in the palette of a pixel of the background.
pub background_color : Bool → ℕ → ℕ → Ppu → ℕ
background_color mirror tile_x color s =
    let attribute_address = u16 (
      ppu_base_nametable_address s
      + mirror_offset mirror 0x400
      + 0x3c0
      + tile_x / 4
      + s.scanline / 32 * 8) in
    let attribute = ppu_ram_read s attribute_address in
    let row = if ltb (s.scanline % 32) 16 then attribute else attribute >>> 4 in
    let column = if ltb (tile_x % 4) 2 then row else row >>> 2 in
    ppu_ram_read s (u16 (0x3f00 + bit_and column 3 * 4) + color)

-- A pixel of a tile with the pattern `l` and `h`.
pub background_pixel : Bool → ℕ → ℕ → ℕ → ℕ → Video → Video
background_pixel mirror tile_x l h x v =
    let s = v.nes.ppu in
    let color = ppu_l_h_addition l h x in
    if color == 0
    then v
    else draw (u32 (tile_x * 8 + x + 2 ^ 32 - s.scroll_x + mirror_offset mirror 256))
        (s.scanline + 1) (background_color mirror tile_x color s)
        (record v { background = write v.background ((tile_x * 8 + x) * 248 + s.scanline) color })

pub background_pixels : ℕ → Bool → ℕ → ℕ → ℕ → Video → Video
background_pixels zero mirror tile_x l h v = v
background_pixels (suc x) mirror tile_x l h v =
    background_pixel mirror tile_x l h x (background_pixels x mirror tile_x l h v)

-- Where the pattern of a tile has the row of the line.
pub tile_row : Bool → ℕ → Ppu → ℕ
tile_row mirror tile_x s =
    let tile_index =
      ppu_ram_read s (
        ppu_base_nametable_address s + tile_x + s.scanline / 8 * 32 + mirror_offset mirror 0x400) in
    u16 (ppu_background_pattern_table_address s + 16 * tile_index) + s.scanline % 8

pub background_tile : Bool → ℕ → Video → Video
background_tile mirror tile_x v =
    let s = v.nes.ppu in
    let l = ppu_ram_read s (tile_row mirror tile_x s) in
    let h = ppu_ram_read s (tile_row mirror tile_x s + 8) in
    if int_lt 256 (u32 (tile_x * 8 + 2 ^ 32 - s.scroll_x + mirror_offset mirror 256))
    then v
    else background_pixels 8 mirror tile_x l h v

-- The tiles from `first` on.
pub background_tiles : ℕ → ℕ → Bool → Video → Video
background_tiles zero first mirror v = v
background_tiles (suc count) first mirror v =
    background_tile mirror (first + count) (background_tiles count first mirror v)

pub ppu_draw_background_scanline : Bool → Video → Video
ppu_draw_background_scanline mirror v =
    if ppu_shows_background_in_leftmost_8px v.nes.ppu
    then background_tiles 32 0 mirror v
    else background_tiles 31 1 mirror v

-- A pixel of the sprite at `n`, with its colour.
pub sprite_pixel : ℕ → ℕ → ℕ → Video → Video
sprite_pixel n color x v =
    let s = v.nes.ppu in
    let screen_x = s.sprram (n + 3) + x in
    let line = s.sprram n + s.scanline % 8 in
    let idx = ppu_ram_read s (u16 (0x3f10 + bit_and (s.sprram (n + 2)) 3 * 4) + color) in
    let drawn = draw screen_x (line + 1) idx v in
    let hit =
      ppu_shows_background s
      && not s.sprite_hit_occured
      && n == 0
      && v.background (screen_x * 248 + line) == color in
    if color == 0
    then v
    else if hit
    then record drawn {
      nes = record (drawn.nes) {
        ppu = record (ppu_set_sprite_0_hit drawn.nes.ppu true) { sprite_hit_occured = true };
      };
    }
    else drawn

pub sprite_pixels : ℕ → ℕ → ℕ → ℕ → Video → Video
sprite_pixels zero n l h v = v
sprite_pixels (suc x) n l h v =
    let hflip = truthy (bit_and (v.nes.ppu.sprram (n + 2)) 0x40) in
    let color = if hflip then ppu_l_h_addition_flip l h x else ppu_l_h_addition l h x in
    sprite_pixel n color x (sprite_pixels x n l h v)

unfoldable pub sprite : ℕ → Video → Video
sprite n v =
    let s = v.nes.ppu in
    let y_in_tile = s.scanline % 8 in
    let row = if truthy (bit_and (s.sprram (n + 2)) 0x80) then 7 - y_in_tile else y_in_tile in
    let tile_address = u16 (ppu_sprite_pattern_table_address s + 16 * s.sprram (n + 1)) in
    sprite_pixels 8 n (ppu_ram_read s (tile_address + row))
      (ppu_ram_read s (tile_address + row + 8)) v

abbrev pub is_on_line : ℕ → Ppu → Bool
is_on_line n s =
    not (ltb s.scanline (s.sprram n) || ltb (s.sprram n + ppu_sprite_height s) s.scanline)

-- The first `count` sprites, with `scanline_sprite_count`.
pub sprites : ℕ → Video → ℕ × Video
sprites zero v = (0, v)
sprites (suc count) v0 =
    let (found, v) = sprites count v0 in
    let s = v.nes.ppu in
    let marked =
      if ltb 8 (found + 1)
      then record v { nes = record (v.nes) { ppu = ppu_set_sprite_overflow s true } }
      else v in
    if is_on_line (count * 4) s then (found + 1, sprite (count * 4) marked) else (found, v)

pub ppu_draw_sprite_scanline : Video → Video
ppu_draw_sprite_scanline v = (sprites 64 v).1
