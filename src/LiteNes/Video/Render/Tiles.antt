-- ===== src/LiteNes/Video/Render/Tiles.antt =====
-- The background of a line, tile by tile, and the picture that the two passes over the tiles give.
use mathlib.Core.Path.{subst}
use wukong_am.Base.{
  ℕ, zero, suc, ◌+◌, ◌-◌, ◌*◌, ◌/◌, ◌%◌, ◌^◌, ◌<◌, ◌≤◌, ◌≡◌, refl, ◌∙◌, ap, Bool, true, false,
}
use wukong_am.Base.{u32, int_lt, ◌==◌, if◌then◌else◌, Bool-cases, inl, inr, arith}
use wukong_am.LiteNes.Machine.{Nes}
use wukong_am.LiteNes.Ppu.{Ppu, ppu_ram_read}
use wukong_am.LiteNes.Video.{Video, candraw}
use wukong_am.LiteNes.Video.Render.{background_tile, background_tiles, tile_row, mirror_offset}
use wukong_am.LiteNes.Video.Render.Kept.{background_tiles-Keeps}
use wukong_am.LiteNes.Video.Render.Pixels.{shade, tile_color, IsPlace, at, is_covered, pixels_in}

-- The tests of the skipped tiles: they lie on the right of the canvas.
skipped :
    (p off x scroll : ℕ)
    → scroll < 256
    → p < 256
    → off ≤ 256
    → x < 256
    → int_lt 256 (u32 (p + 2 ^ 32 - scroll + off)) ≡ true
    → is_covered (p + off) 8 (x + scroll) ≡ false
skipped p off x scroll a b c d e = ground (arith, a, b, c, d, e)

tile_at :
    (mirror : Bool) (tile_x x : ℕ) (v : Video)
    → candraw v ≡ true
    → IsPlace v.nes.ppu x
    → tile_x < 32
    → let s = v.nes.ppu in
      let first = tile_x * 8 + mirror_offset mirror 256 in
      at s x (background_tile mirror tile_x v) ≡ (
        if is_covered first 8 (x + s.scroll_x)
        then shade mirror tile_x (tile_color mirror tile_x (x + s.scroll_x - first) s) s (at s x v)
        else at s x v)
unfolding background_tile tile_color
tile_at mirror tile_x x v can place small =
    let s = v.nes.ppu in
    let off = mirror_offset mirror 256 in
    let off_small : off ≤ 256 = ground arith in
    elim (Bool-cases (int_lt 256 (u32 (tile_x * 8 + 2 ^ 32 - s.scroll_x + off)))) [
      | inl skip ↦
          rw
            (
              skip,
              skipped (tile_x * 8) off x s.scroll_x place.scroll (omega (arith, small)) off_small
                  place.on_line skip,
            )
            refl
      | inr stay ↦ rw stay (
          pixels_in 8 mirror tile_x (ppu_ram_read s (tile_row mirror tile_x s))
            (ppu_ram_read s (tile_row mirror tile_x s + 8)) x v can place small (omega arith))
    ]

tile_in :
    (s : Ppu) (mirror : Bool) (tile_x x : ℕ) (v : Video)
    → v.nes.ppu ≡ s
    → candraw v ≡ true
    → IsPlace s x
    → tile_x < 32
    → let first = tile_x * 8 + mirror_offset mirror 256 in
      at s x (background_tile mirror tile_x v) ≡ (
        if is_covered first 8 (x + s.scroll_x)
        then shade mirror tile_x (tile_color mirror tile_x (x + s.scroll_x - first) s) s (at s x v)
        else at s x v)
tile_in s mirror tile_x x v e can place small =
    subst
      (λ s.
        IsPlace s x
        → (let first = tile_x * 8 + mirror_offset mirror 256 in
            at s x (background_tile mirror tile_x v) ≡ (
              if is_covered first 8 (x + s.scroll_x)
              then shade mirror tile_x (tile_color mirror tile_x (x + s.scroll_x - first) s) s
                  (at s x v)
              else at s x v)))
      e (λ place. tile_at mirror tile_x x v can place small) place

-- One more round of a loop over the tiles.
tile_next :
    (f : ℕ → ℕ → ℕ → ℕ) (first n off g o : ℕ)
    → (if is_covered ((first + n) * 8 + off) 8 g
        then f (first + n) (g - ((first + n) * 8 + off)) (
            if is_covered (first * 8 + off) (n * 8) g
            then f ((g - off) / 8) ((g - off) % 8) o
            else o)
        else if is_covered (first * 8 + off) (n * 8) g
        then f ((g - off) / 8) ((g - off) % 8) o
        else o)
      ≡ (if is_covered (first * 8 + off) (suc n * 8) g
          then f ((g - off) / 8) ((g - off) % 8) o
          else o)
tile_next f first n off g o = elim (Bool-cases (is_covered ((first + n) * 8 + off) 8 g)) [
  | inl here ↦
      let before : is_covered (first * 8 + off) (n * 8) g ≡ false = ground (arith, here) in
      let now : is_covered (first * 8 + off) (suc n * 8) g ≡ true = ground (arith, here) in
      let tile : (g - off) / 8 ≡ first + n = ground (arith, here) in
      let pixel : (g - off) % 8 ≡ g - ((first + n) * 8 + off) = ground (arith, here) in
      rw (here, before, now, tile, pixel) refl
  | inr other ↦
      let same : is_covered (first * 8 + off) (suc n * 8) g
          ≡ is_covered (first * 8 + off) (n * 8) g =
        ground (arith, other) in
      rw (other, same) refl
]

pub tiles_in :
    (n first : ℕ) (mirror : Bool) (x : ℕ) (v : Video)
    → candraw v ≡ true
    → IsPlace v.nes.ppu x
    → first + n ≤ 32
    → let s = v.nes.ppu in
      let off = mirror_offset mirror 256 in
      let d = x + s.scroll_x - off in
      at s x (background_tiles n first mirror v) ≡ (
        if is_covered (first * 8 + off) (n * 8) (x + s.scroll_x)
        then shade mirror (d / 8) (tile_color mirror (d / 8) (d % 8) s) s (at s x v)
        else at s x v)
unfolding background_tiles
tiles_in zero first mirror x v can place few =
    let none_yet : is_covered (first * 8 + mirror_offset mirror 256) 0 (x + v.nes.ppu.scroll_x)
        ≡ false =
      ground arith in
    rw none_yet refl
tiles_in (suc n) first mirror x v can place few =
    let s = v.nes.ppu in
    let off = mirror_offset mirror 256 in
    let w = background_tiles n first mirror v in
    let kept = background_tiles-Keeps n first mirror v in
    let before = tiles_in n first mirror x v can place (omega (arith, few)) in
    let can_w : candraw w ≡ true = ap (λ c. c % 3 == 0) kept.1 ∙ can in
    tile_in s mirror (first + n) x w (ap (λ (m : Nes). m.ppu) kept.0) can_w place
      (omega (arith, few))
    ∙ rw before (
        tile_next (λ t k o. shade mirror t (tile_color mirror t k s) s o) first n off
          (x + s.scroll_x) (at s x v))
