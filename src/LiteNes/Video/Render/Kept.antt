-- ===== src/LiteNes/Video/Render/Kept.antt =====
-- The background of a line changes neither the machine nor the number of the frame.
use wukong_am.Base.{ℕ, zero, suc, ◌+◌, ◌≡◌, refl, ◌∙◌, Bool, ◌==◌, if-intro, not, ◌&&◌, int_lt}
use wukong_am.LiteNes.Video.{Video, draw, candraw}
use wukong_am.LiteNes.Video.Render.{
  ppu_l_h_addition, background_pixel, background_pixels, background_tile, background_tiles,
}

-- The machine and the number of the frame.
abbrev pub Keeps : Video → Video → Type 0
Keeps v w = (w.nes ≡ v.nes) × (w.frame_cnt ≡ v.frame_cnt)

pub Keeps-trans : (u v w : Video) → Keeps u v → Keeps v w → Keeps u w
Keeps-trans u v w a b = (b.0 ∙ a.0, b.1 ∙ a.1)

pub draw-Keeps : (x y idx : ℕ) (v : Video) → Keeps v (draw x y idx v)
unfolding draw
draw-Keeps x y idx v =
    if-intro (Keeps v)
      (not (int_lt x 0) && int_lt x 256 && not (int_lt y 0) && int_lt y 240 && candraw v)
      (refl, refl) (refl, refl)

background_pixel-Keeps :
    (mirror : Bool) (tile_x l h x : ℕ) (v : Video)
    → Keeps v (background_pixel mirror tile_x l h x v)
unfolding background_pixel
background_pixel-Keeps mirror tile_x l h x v =
    if-intro (Keeps v) (ppu_l_h_addition l h x == 0) (refl, refl) (draw-Keeps _ _ _ _)

pub background_pixels-Keeps :
    (n : ℕ) (mirror : Bool) (tile_x l h : ℕ) (v : Video)
    → Keeps v (background_pixels n mirror tile_x l h v)
unfolding background_pixels
background_pixels-Keeps zero mirror tile_x l h v = (refl, refl)
background_pixels-Keeps (suc x) mirror tile_x l h v =
    Keeps-trans v (background_pixels x mirror tile_x l h v)
      (background_pixel mirror tile_x l h x (background_pixels x mirror tile_x l h v))
      (background_pixels-Keeps x mirror tile_x l h v)
      (background_pixel-Keeps mirror tile_x l h x (background_pixels x mirror tile_x l h v))

pub background_tile-Keeps :
    (mirror : Bool) (tile_x : ℕ) (v : Video) → Keeps v (background_tile mirror tile_x v)
unfolding background_tile
background_tile-Keeps mirror tile_x v =
    if-intro (Keeps v) _ (refl, refl) (background_pixels-Keeps 8 mirror tile_x _ _ v)

pub background_tiles-Keeps :
    (n first : ℕ) (mirror : Bool) (v : Video) → Keeps v (background_tiles n first mirror v)
unfolding background_tiles
background_tiles-Keeps zero first mirror v = (refl, refl)
background_tiles-Keeps (suc n) first mirror v =
    Keeps-trans v (background_tiles n first mirror v)
      (background_tile mirror (first + n) (background_tiles n first mirror v))
      (background_tiles-Keeps n first mirror v)
      (background_tile-Keeps mirror (first + n) (background_tiles n first mirror v))
