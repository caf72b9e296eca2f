-- ===== src/LiteNes/Video/Frame.antt =====
-- apps/litenes/src/ppu.c and fce.c: a line of the picture with the processor, and the lines of a frame.
-- The processor runs on fuel; the counters of the time are not modelled.
use wukong_am.Base.{
  ℕ, zero, suc, ◌+◌, ◌-◌, ◌^◌, Option, none, some, List, [], ◌∷◌, true, false, ◌&&◌, not, ◌==◌, ltb,
}
use wukong_am.Base.{if◌then◌else◌, u32, int_lt}
use wukong_am.LiteNes.Psg.{psg_detect_key}
use wukong_am.LiteNes.Ppu.{Ppu, ppu_set_in_vblank, ppu_set_sprite_0_hit}
use wukong_am.LiteNes.Ppu.Mask.{ppu_shows_background, ppu_shows_sprites}
use wukong_am.LiteNes.Cpu.Run.{cpu_run, cpu_clock, cpu_interrupt}
use wukong_am.LiteNes.Video.{Video, fce_update_screen}
use wukong_am.LiteNes.Video.Render.{ppu_draw_background_scanline, ppu_draw_sprite_scanline}

abbrev pub on_ppu : (Ppu → Ppu) → Video → Video
on_ppu f v = record v { nes = record (v.nes) { ppu = f v.nes.ppu } }

-- The start of the line: the picture unit gets ready after a while.
pub warm_up : Video → Video
warm_up v =
    if not v.nes.ppu.ready && ltb 29658 (cpu_clock v.nes)
    then on_ppu (λ s. record s { ready = true }) v
    else v

-- The next line, with its background.
pub next_line : Video → Video
next_line v0 =
    let v = on_ppu (λ s. record s { scanline = u32 (s.scanline + 1) }) v0 in
    if int_lt v.nes.ppu.scanline 240 && ppu_shows_background v.nes.ppu
    then ppu_draw_background_scanline true (ppu_draw_background_scanline false v)
    else v

pub line_sprites : Video → Video
line_sprites v =
    if int_lt v.nes.ppu.scanline 240 && ppu_shows_sprites v.nes.ppu
    then ppu_draw_sprite_scanline v
    else v

-- The end of the line: the vertical blank begins, or a picture is complete.
pub line_end : Video → Video
line_end v =
    if v.nes.ppu.scanline == 241
    then (let w = on_ppu (λ s. ppu_set_sprite_0_hit (ppu_set_in_vblank s true) false) v in
        record w { nes = cpu_interrupt w.nes })
    else if v.nes.ppu.scanline == 262
    then fce_update_screen (
        on_ppu
          (λ s.
            ppu_set_in_vblank (record s { scanline = 2 ^ 32 - 1; sprite_hit_occured = false })
              false)
          v)
    else v

pub run_for : ℕ → ℕ → Video → Option Video
run_for fuel cycles v = elim (cpu_run fuel cycles v.nes) [
  | none ↦ none
  | some s ↦ some (record v { nes = s })
]

pub ppu_cycle : ℕ → Video → Option Video
ppu_cycle fuel v0 = elim (run_for fuel 256 (warm_up v0)) [
  | none ↦ none
  | some v1 ↦ elim (run_for fuel (85 - 16) (next_line v1)) [
    | none ↦ none
    | some v2 ↦ elim (run_for fuel 16 (line_sprites v2)) [
      | none ↦ none
      | some v3 ↦ some (line_end v3)
    ]
  ]
]

-- `ppu_run`
pub ppu_run : ℕ → ℕ → Video → Option Video
ppu_run fuel zero v = some v
ppu_run fuel (suc cycles) v = elim (ppu_cycle fuel v) [
  | none ↦ none
  | some w ↦ ppu_run fuel cycles w
]

-- The lines of `fce_run` until the next wait, with what `read_key` returns after each of them.
pub frame_lines : ℕ → List (List ℕ) → Video → Option Video
frame_lines fuel [] v = some v
frame_lines fuel (keys ∷ rest) v = elim (ppu_cycle fuel v) [
  | none ↦ none
  | some w ↦
      frame_lines fuel rest
        (record w { nes = record (w.nes) { psg = psg_detect_key w.nes.psg keys } })
]
