-- ===== src/LiteNes/Video/Render/Pixels.antt =====
-- The background of a line, pixel by pixel, against the picture that the tiles describe.
use mathlib.Core.Path.{subst}
use wukong_am.Base.{
  ℕ, zero, suc, ◌+◌, ◌-◌, ◌*◌, ◌%◌, ◌^◌, ◌<◌, ◌≤◌, ◌≡◌, refl, ◌∙◌, ap, Bool, true, false,
}
use wukong_am.Base.{
  ◌&&◌, not, ltb, leb, u32, int_lt, ◌==◌, if◌then◌else◌, Bool-cases, inl, inr, arith,
}
use wukong_am.Base.Bytes.{write}
use wukong_am.LiteNes.Machine.{Nes}
use wukong_am.LiteNes.Ppu.{Ppu, ppu_ram_read}
use wukong_am.LiteNes.Video.{Video, draw, candraw, palette}
use wukong_am.LiteNes.Video.Render.{
  background_pixel, background_pixels, ppu_l_h_addition, background_color, tile_row, mirror_offset,
}
use wukong_am.LiteNes.Video.Render.Kept.{background_pixels-Keeps}

-- What a pixel of a tile makes of the colour on the canvas: 0 is transparent.
pub shade : Bool → ℕ → ℕ → Ppu → ℕ → ℕ
shade mirror tile_x color s old =
    if color == 0 then old else palette (background_color mirror tile_x color s)

-- The colour of a pixel in a tile of the line.
unfoldable pub tile_color : Bool → ℕ → ℕ → Ppu → ℕ
tile_color mirror tile_x x s =
    ppu_l_h_addition (ppu_ram_read s (tile_row mirror tile_x s))
      (ppu_ram_read s (tile_row mirror tile_x s + 8)) x

-- A line of the canvas that is drawn, and a place on it.
pub record IsPlace (s : Ppu) (x : ℕ) : Type 0 where
  pub line : s.scanline < 239
  pub scroll : s.scroll_x < 256
  pub on_line : x < 256

-- The place of a pixel of the background on the line, and the test of `draw`.
draw_hits :
    (p off line x scroll : ℕ)
    → line < 239
    → scroll < 256
    → p < 256
    → off ≤ 256
    → x < 256
    → ((not (int_lt (u32 (p + 2 ^ 32 - scroll + off)) 0)
          && int_lt (u32 (p + 2 ^ 32 - scroll + off)) 256
          && not (int_lt (line + 1) 0)
          && int_lt (line + 1) 240)
        && ((line + 1) * 256 + x == (line + 1) * 256 + u32 (p + 2 ^ 32 - scroll + off)))
      ≡ (p + off == x + scroll)
draw_hits p off line x scroll a b c d e = ground (arith, a, b, c, d, e)

draw_at :
    (px py idx i : ℕ) (v : Video)
    → candraw v ≡ true
    → (draw px py idx v).canvas i ≡ (
        if (not (int_lt px 0) && int_lt px 256 && not (int_lt py 0) && int_lt py 240)
          && (i == py * 256 + px)
        then palette idx
        else v.canvas i)
unfolding draw
draw_at px py idx i v h =
    elim (Bool-cases (not (int_lt px 0) && int_lt px 256 && not (int_lt py 0) && int_lt py 240)) [
      | inl inside ↦ rw (inside, h) refl
      | inr outside ↦ rw outside refl
    ]

pub if_same : (b : Bool) (n : ℕ) → n ≡ (if b then n else n)
if_same true n = refl
if_same false n = refl

-- A pixel of the background changes the place where it belongs.
pixel_at :
    (mirror : Bool) (tile_x l h k x : ℕ) (v : Video)
    → candraw v ≡ true
    → IsPlace v.nes.ppu x
    → tile_x < 32
    → k < 8
    → (background_pixel mirror tile_x l h k v).canvas ((v.nes.ppu.scanline + 1) * 256 + x) ≡ (
        if tile_x * 8 + k + mirror_offset mirror 256 == x + v.nes.ppu.scroll_x
        then shade mirror tile_x
            (ppu_l_h_addition l h k)
            v.nes.ppu
            (v.canvas ((v.nes.ppu.scanline + 1) * 256 + x))
        else v.canvas ((v.nes.ppu.scanline + 1) * 256 + x))
unfolding background_pixel shade
pixel_at mirror tile_x l h k x v can place small few =
    let s = v.nes.ppu in
    let off = mirror_offset mirror 256 in
    let off_small : off ≤ 256 = ground arith in
    let p = tile_x * 8 + k in
    elim (Bool-cases (ppu_l_h_addition l h k == 0)) [
      | inl clear ↦ rw clear (if_same (tile_x * 8 + k + off == x + s.scroll_x) _)
      | inr color ↦ rw color (
          draw_at (u32 (p + 2 ^ 32 - s.scroll_x + off)) (s.scanline + 1)
            (background_color mirror tile_x (ppu_l_h_addition l h k) s) ((s.scanline + 1) * 256 + x)
            (record v {
              background = write v.background (p * 248 + s.scanline) (ppu_l_h_addition l h k);
            })
            can
          ∙ rw
              (draw_hits p off s.scanline x s.scroll_x place.line place.scroll
                (omega (arith, small, few)) off_small place.on_line)
              refl)
    ]

-- The place on the canvas.
abbrev pub at : Ppu → ℕ → Video → ℕ
at s x v = v.canvas ((s.scanline + 1) * 256 + x)

pixel_in :
    (s : Ppu) (mirror : Bool) (tile_x l h k x : ℕ) (v : Video)
    → v.nes.ppu ≡ s
    → candraw v ≡ true
    → IsPlace s x
    → tile_x < 32
    → k < 8
    → at s x (background_pixel mirror tile_x l h k v) ≡ (
        if tile_x * 8 + k + mirror_offset mirror 256 == x + s.scroll_x
        then shade mirror tile_x (ppu_l_h_addition l h k) s (at s x v)
        else at s x v)
pixel_in s mirror tile_x l h k x v e can place small few =
    subst
      (λ s.
        IsPlace s x
        → at s x (background_pixel mirror tile_x l h k v) ≡ (
            if tile_x * 8 + k + mirror_offset mirror 256 == x + s.scroll_x
            then shade mirror tile_x (ppu_l_h_addition l h k) s (at s x v)
            else at s x v))
      e (λ place. pixel_at mirror tile_x l h k x v can place small few) place

-- The first `n` pixels of a tile cover the place `g` of the background.
abbrev pub is_covered : ℕ → ℕ → ℕ → Bool
is_covered first n g = leb first g && ltb g (first + n)

-- One more round of a loop that covers the places in order.
cover_next :
    (f : ℕ → ℕ → ℕ) (p first n g o : ℕ)
    → p ≡ first + n
    → (if p == g
        then f n (if is_covered first n g then f (g - first) o else o)
        else if is_covered first n g
        then f (g - first) o
        else o)
      ≡ (if is_covered first (suc n) g then f (g - first) o else o)
cover_next f p first n g o e = elim (Bool-cases (p == g)) [
  | inl here ↦
      let before : is_covered first n g ≡ false = ground (arith, e, here) in
      let now : is_covered first (suc n) g ≡ true = ground (arith, e, here) in
      let place : g - first ≡ n = ground (arith, e, here) in rw (here, before, now, place) refl
  | inr other ↦
      let same : is_covered first (suc n) g ≡ is_covered first n g = ground (arith, e, other) in
      rw (other, same) refl
]

pub pixels_in :
    (n : ℕ) (mirror : Bool) (tile_x l h x : ℕ) (v : Video)
    → candraw v ≡ true
    → IsPlace v.nes.ppu x
    → tile_x < 32
    → n ≤ 8
    → let s = v.nes.ppu in
      let first = tile_x * 8 + mirror_offset mirror 256 in
      at s x (background_pixels n mirror tile_x l h v) ≡ (
        if is_covered first n (x + s.scroll_x)
        then shade mirror tile_x (ppu_l_h_addition l h (x + s.scroll_x - first)) s (at s x v)
        else at s x v)
unfolding background_pixels
pixels_in zero mirror tile_x l h x v can place small few =
    let first = tile_x * 8 + mirror_offset mirror 256 in
    let none_yet : is_covered first 0 (x + v.nes.ppu.scroll_x) ≡ false = ground arith in
    rw none_yet refl
pixels_in (suc n) mirror tile_x l h x v can place small few =
    let s = v.nes.ppu in
    let g = x + s.scroll_x in
    let first = tile_x * 8 + mirror_offset mirror 256 in
    let w = background_pixels n mirror tile_x l h v in
    let kept = background_pixels-Keeps n mirror tile_x l h v in
    let before = pixels_in n mirror tile_x l h x v can place small (omega (arith, few)) in
    let can_w : candraw w ≡ true = ap (λ c. c % 3 == 0) kept.1 ∙ can in
    pixel_in s mirror tile_x l h n x w (ap (λ (m : Nes). m.ppu) kept.0) can_w place small
      (omega (arith, few))
    ∙ rw before (
        cover_next (λ k o. shade mirror tile_x (ppu_l_h_addition l h k) s o)
          (tile_x * 8 + n + mirror_offset mirror 256) first n g (at s x v) (omega arith))
