-- ===== src/LiteNes/Video/Render/Line.antt =====
-- The background of a line against the picture that the tables of names describe: two screens side by side,
-- of which the line shows 256 points from the horizontal scroll on.
use mathlib.Core.Path.{subst}
use wukong_am.Base.{ℕ, ◌+◌, ◌-◌, ◌*◌, ◌/◌, ◌%◌, ◌<◌, ◌≡◌, refl, ◌∙◌, ap, Bool, true, false}
use wukong_am.Base.{◌||◌, leb, ◌==◌, if◌then◌else◌, Bool-cases, inl, inr, arith}
use wukong_am.LiteNes.Machine.{Nes}
use wukong_am.LiteNes.Ppu.{Ppu}
use wukong_am.LiteNes.Ppu.Mask.{ppu_shows_background_in_leftmost_8px}
use wukong_am.LiteNes.Video.{Video, candraw}
use wukong_am.LiteNes.Video.Render.{background_tiles, ppu_draw_background_scanline, mirror_offset}
use wukong_am.LiteNes.Video.Render.Kept.{background_tiles-Keeps}
use wukong_am.LiteNes.Video.Render.Pixels.{shade, tile_color, IsPlace, at, is_covered}
use wukong_am.LiteNes.Video.Render.Tiles.{tiles_in}

-- The colour of a point of the line, over the old one.
pub background_at : ℕ → Ppu → ℕ → ℕ
background_at x s old =
    let g = x + s.scroll_x in
    let second = leb 256 g in
    let p = g % 256 in
    if ppu_shows_background_in_leftmost_8px s || leb 8 p
    then shade second (p / 8) (tile_color second (p / 8) (p % 8) s) s old
    else old

-- The two passes cover each place of the two screens once.
two_passes :
    (f : Bool → ℕ → ℕ → ℕ → ℕ) (all : Bool) (g o : ℕ)
    → g < 512
    → (let first = (if all then 0 else 1) in
        let n = (if all then 32 else 31) in
        let once =
          (if is_covered (first * 8 + 0) (n * 8) g
            then f false ((g - 0) / 8) ((g - 0) % 8) o
            else o) in
        if is_covered (first * 8 + 256) (n * 8) g
        then f true ((g - 256) / 8) ((g - 256) % 8) once
        else once)
      ≡ (if all || leb 8 (g % 256) then f (leb 256 g) (g % 256 / 8) (g % 256 % 8) o else o)
two_passes f true g o h = elim (Bool-cases (leb 256 g)) [
  | inl second ↦
      let one : is_covered 0 256 g ≡ false = ground (arith, second) in
      let two : is_covered 256 256 g ≡ true = ground (arith, second, h) in
      let place : g - 256 ≡ g % 256 = ground (arith, second, h) in rw (one, two, second, place) refl
  | inr first ↦
      let one : is_covered 0 256 g ≡ true = ground (arith, first) in
      let two : is_covered 256 256 g ≡ false = ground (arith, first) in
      let place : g % 256 ≡ g = ground (arith, first) in
      let same : g - 0 ≡ g = omega arith in rw (one, two, first, place, same) refl
]
two_passes f false g o h = elim (Bool-cases (leb 256 g)) [
  | inl second ↦
      let one : is_covered 8 248 g ≡ false = ground (arith, second) in
      let two : is_covered 264 248 g ≡ leb 8 (g % 256) = ground (arith, second, h) in
      let place : g - 256 ≡ g % 256 = ground (arith, second, h) in rw (one, two, second, place) refl
  | inr first ↦
      let one : is_covered 8 248 g ≡ leb 8 (g % 256) = ground (arith, first) in
      let two : is_covered 264 248 g ≡ false = ground (arith, first) in
      let place : g % 256 ≡ g = ground (arith, first) in
      let same : g - 0 ≡ g = omega arith in rw (one, two, first, same) (rw place refl)
]

-- The tiles of a pass, with and without the first one.
abbrev pass : Bool → Bool → Video → Video
pass all mirror v = background_tiles (if all then 32 else 31) (if all then 0 else 1) mirror v

scanline-pass :
    (mirror : Bool) (v : Video)
    → ppu_draw_background_scanline mirror v
      ≡ pass (ppu_shows_background_in_leftmost_8px v.nes.ppu) mirror v
unfolding ppu_draw_background_scanline
scanline-pass mirror v = elim (Bool-cases (ppu_shows_background_in_leftmost_8px v.nes.ppu)) [
  | inl all ↦ rw all refl
  | inr some_tiles ↦ rw some_tiles refl
]

pass_in :
    (s : Ppu) (all mirror : Bool) (x : ℕ) (v : Video)
    → v.nes.ppu ≡ s
    → candraw v ≡ true
    → IsPlace s x
    → let off = mirror_offset mirror 256 in
      let d = x + s.scroll_x - off in
      at s x (pass all mirror v) ≡ (
        if is_covered
          ((if all then 0 else 1) * 8 + off)
          ((if all then 32 else 31) * 8)
          (x + s.scroll_x)
        then shade mirror (d / 8) (tile_color mirror (d / 8) (d % 8) s) s (at s x v)
        else at s x v)
pass_in s all mirror x v e can place =
    subst
      (λ s.
        IsPlace s x
        → (let off = mirror_offset mirror 256 in
            let d = x + s.scroll_x - off in
            at s x (pass all mirror v) ≡ (
              if is_covered ((if all then 0 else 1) * 8 + off) ((if all then 32 else 31) * 8)
                (x + s.scroll_x)
              then shade mirror (d / 8) (tile_color mirror (d / 8) (d % 8) s) s (at s x v)
              else at s x v)))
      e
      (λ place.
        tiles_in (if all then 32 else 31) (if all then 0 else 1) mirror x v can place
          (ground arith))
      place

-- On a line below 239 and in a frame that is drawn, the two passes of the background leave on each of
-- the 256 points the colour that the tables of names and patterns have at the point moved by the
-- horizontal scroll, over two screens side by side, or the old colour where that is transparent or
-- where it lies in the first eight columns of a screen and those are not shown. The machine does not change.
pub ppu_draw_background_scanline-background_at :
    (x : ℕ) (v : Video)
    → candraw v ≡ true
    → v.nes.ppu.scanline < 239
    → v.nes.ppu.scroll_x < 256
    → x < 256
    → let s = v.nes.ppu in
      let w = ppu_draw_background_scanline true (ppu_draw_background_scanline false v) in
      (w.canvas ((s.scanline + 1) * 256 + x)
        ≡ background_at x s (v.canvas ((s.scanline + 1) * 256 + x)))
      × (w.nes ≡ v.nes)
unfolding background_at
ppu_draw_background_scanline-background_at x v can line scroll small =
    let s = v.nes.ppu in
    let all = ppu_shows_background_in_leftmost_8px s in
    let place : IsPlace s x = record { line = line; scroll = scroll; on_line = small } in
    let one = pass all false v in
    let kept = background_tiles-Keeps (if all then 32 else 31) (if all then 0 else 1) false v in
    let kept2 = background_tiles-Keeps (if all then 32 else 31) (if all then 0 else 1) true one in
    let same : one.nes.ppu ≡ s = ap (λ (m : Nes). m.ppu) kept.0 in
    let can_one : candraw one ≡ true = ap (λ c. c % 3 == 0) kept.1 ∙ can in
    let two : ppu_draw_background_scanline true (ppu_draw_background_scanline false v)
        ≡ pass all true one =
      ap (ppu_draw_background_scanline true) (scanline-pass false v)
      ∙ scanline-pass true one
      ∙ ap (λ s. pass (ppu_shows_background_in_leftmost_8px s) true one) same in
    (
      ap (at s x) two
          ∙ pass_in s all true x one same can_one place
          ∙ rw (pass_in s all false x v refl can place) (
              two_passes (λ m t k o. shade m t (tile_color m t k s) s o) all (x + s.scroll_x)
                (at s x v) (omega (arith, scroll, small))),
      ap (λ (u : Video). u.nes) two ∙ kept2.0 ∙ kept.0,
    )
