-- ===== src/LiteNes/Video.antt =====
-- apps/litenes/src/fce.c and include/fce.h: the canvas of the emulator with its palette. What lies behind
-- the palette is taken as 0. The copy of the canvas to the screen is I/O.
pub mod Render
pub mod Frame
use wukong_am.Base.{
  ℕ, zero, suc, ◌+◌, ◌*◌, ◌%◌, List, [], ◌∷◌, Bool, true, false, ◌&&◌, not, ◌==◌, ltb,
}
use wukong_am.Base.{if◌then◌else◌, u32, int_lt}
use wukong_am.Base.Bytes.{Array, write}
use wukong_am.LiteNes.Machine.{Nes}
use wukong_am.LiteNes.Ppu.{ppu_ram_read}

-- The machine, with `frame_cnt` and `canvas`, and with `ppu_screen_background` of ppu.c row after row.
pub record Video : Type 0 where
  pub nes : Nes
  pub frame_cnt : ℕ
  pub canvas : Array
  pub background : Array

abbrev pub palette_colors : List ℕ
palette_colors =
    0x808080 ∷ 0x0000bb ∷ 0x3700bf ∷ 0x8400a6 ∷ 0xbb006a ∷ 0xb7001e ∷ 0xb30000 ∷ 0x912600 ∷ 0x7b2b00
    ∷ 0x003e00 ∷ 0x00480d ∷ 0x003c22 ∷ 0x002f66 ∷ 0x000000 ∷ 0x050505 ∷ 0x050505 ∷ 0xc8c8c8
    ∷ 0x0059ff ∷ 0x443cff ∷ 0xb733cc ∷ 0xff33aa ∷ 0xff375e ∷ 0xff371a ∷ 0xd54b00 ∷ 0xc46200
    ∷ 0x3c7b00 ∷ 0x1e8415 ∷ 0x009566 ∷ 0x0084c4 ∷ 0x111111 ∷ 0x090909 ∷ 0x090909 ∷ 0xffffff
    ∷ 0x0095ff ∷ 0x6f84ff ∷ 0xd56fff ∷ 0xff77cc ∷ 0xff6f99 ∷ 0xff7b59 ∷ 0xff915f ∷ 0xffa233
    ∷ 0xa6bf00 ∷ 0x51d96a ∷ 0x4dd5ae ∷ 0x00d9ff ∷ 0x666666 ∷ 0x0d0d0d ∷ 0x0d0d0d ∷ 0xffffff
    ∷ 0x84bfff ∷ 0xbbbbff ∷ 0xd0bbff ∷ 0xffbfea ∷ 0xffbfcc ∷ 0xffc4b7 ∷ 0xffccae ∷ 0xffd9a2
    ∷ 0xcce199 ∷ 0xaeeeb7 ∷ 0xaaf7ee ∷ 0xb3eeff ∷ 0xdddddd ∷ 0x111111 ∷ 0x111111 ∷ []

pub color_at : List ℕ → ℕ → ℕ
color_at [] i = 0
color_at (c ∷ cs) zero = c
color_at (c ∷ cs) (suc i) = color_at cs i

pub palette : ℕ → ℕ
palette idx = color_at palette_colors idx

abbrev pub candraw : Video → Bool
candraw v = v.frame_cnt % 3 == 0

-- The point is an `int` in each coordinate.
pub draw : ℕ → ℕ → ℕ → Video → Video
draw x y idx v =
    if not (int_lt x 0) && int_lt x 256 && not (int_lt y 0) && int_lt y 240 && candraw v
    then record v { canvas = write v.canvas (y * 256 + x) (palette idx) }
    else v

pub fce_update_screen : Video → Video
fce_update_screen v0 =
    let v = record v0 { frame_cnt = u32 (v0.frame_cnt + 1) } in
    let bgc = palette (ppu_ram_read v.nes.ppu 0x3f00) in
    if candraw v
    then record v { canvas = λ i. if ltb i (256 * 240) then bgc else v.canvas i }
    else v
