-- ===== src/LiteNes/Video/Render/Sprites.antt =====
-- The sprites of a line: how many there are, and the flag that more than eight leave.
use wukong_am.Base.{ℕ, zero, suc, ◌+◌, ◌*◌, ◌≡◌, refl, sym, ◌∙◌, ap, Bool, true, false}
use wukong_am.Base.{◌||◌, ltb, ◌==◌, if◌then◌else◌, Bool-cases, inl, inr, arith, if-intro}
use wukong_am.LiteNes.Bits.{common_bit_set}
use wukong_am.LiteNes.Bits.Laws.{common_bit_set-common_modify_bit}
use wukong_am.LiteNes.Machine.{Nes}
use wukong_am.LiteNes.Ppu.{Ppu, ppu_sprite_height, ppu_set_sprite_0_hit}
use wukong_am.LiteNes.Ppu.Mask.{ppu_set_sprite_overflow}
use wukong_am.LiteNes.Video.{Video, draw}
use wukong_am.LiteNes.Video.Render.{
  sprite_pixel, sprite_pixels, sprite, sprites, is_on_line, ppu_draw_sprite_scanline,
}
use wukong_am.LiteNes.Video.Render.Kept.{draw-Keeps}

-- The sprites among the first `count` that are on the line.
pub count_on_line : ℕ → Ppu → ℕ
count_on_line zero s = 0
count_on_line (suc count) s =
    let rest = count_on_line count s in if is_on_line (count * 4) s then rest + 1 else rest

-- What no pixel of a sprite changes: the sprites, the line, the control bits and the flag.
abbrev pub IsSame : Ppu → Ppu → Type 0
IsSame s t =
    (t.sprram ≡ s.sprram)
    × (t.scanline ≡ s.scanline)
    × (t.ctrl ≡ s.ctrl)
    × (common_bit_set t.status 5 ≡ common_bit_set s.status 5)

IsSame-trans : (s t u : Ppu) → IsSame s t → IsSame t u → IsSame s u
IsSame-trans s t u a b = (b.0 ∙ a.0, b.1 ∙ a.1, b.2 ∙ a.2, b.3 ∙ a.3)

IsSame-hit :
    (s t : Ppu)
    → t ≡ s
    → IsSame s (record (ppu_set_sprite_0_hit t true) { sprite_hit_occured = true })
unfolding ppu_set_sprite_0_hit
IsSame-hit s t e = (
  ap (λ (q : Ppu). q.sprram) e,
  ap (λ (q : Ppu). q.scanline) e,
  ap (λ (q : Ppu). q.ctrl) e,
  common_bit_set-common_modify_bit 8 t.status 6 5 true (omega arith) (omega arith) (omega arith)
      ∙ ap (λ (q : Ppu). common_bit_set q.status 5) e,
)

IsSame-equal : (s t : Ppu) → t ≡ s → IsSame s t
IsSame-equal s t e = (
  ap (λ (q : Ppu). q.sprram) e,
  ap (λ (q : Ppu). q.scanline) e,
  ap (λ (q : Ppu). q.ctrl) e,
  ap (λ (q : Ppu). common_bit_set q.status 5) e,
)

sprite_pixel-IsSame :
    (n color x : ℕ) (v : Video) → IsSame v.nes.ppu (sprite_pixel n color x v).nes.ppu
unfolding sprite_pixel
sprite_pixel-IsSame n color x v =
    let same : (x y idx : ℕ) → (draw x y idx v).nes.ppu ≡ v.nes.ppu =
      λ x y idx. ap (λ (m : Nes). m.ppu) (draw-Keeps x y idx v).0 in
    if-intro (λ (w : Video). IsSame v.nes.ppu w.nes.ppu) (color == 0) (refl, refl, refl, refl)
      (if-intro (λ (w : Video). IsSame v.nes.ppu w.nes.ppu) _ (IsSame-hit v.nes.ppu _ (same _ _ _))
        (IsSame-equal v.nes.ppu _ (same _ _ _)))

sprite_pixels-IsSame :
    (count n l h : ℕ) (v : Video) → IsSame v.nes.ppu (sprite_pixels count n l h v).nes.ppu
unfolding sprite_pixels
sprite_pixels-IsSame zero n l h v = (refl, refl, refl, refl)
sprite_pixels-IsSame (suc x) n l h v =
    IsSame-trans v.nes.ppu (sprite_pixels x n l h v).nes.ppu (sprite_pixels (suc x) n l h v).nes.ppu
      (sprite_pixels-IsSame x n l h v) (sprite_pixel-IsSame n _ x (sprite_pixels x n l h v))

sprite-IsSame : (n : ℕ) (v : Video) → IsSame v.nes.ppu (sprite n v).nes.ppu
unfolding sprite
sprite-IsSame n v = sprite_pixels-IsSame 8 n _ _ v

-- What the sprites leave: the flag besides the number of those on the line.
record IsCounted (v : Video) (n : ℕ) (r : ℕ × Video) : Type 0 where
  number : r.0 ≡ count_on_line n v.nes.ppu
  sprram : r.1.nes.ppu.sprram ≡ v.nes.ppu.sprram
  scanline : r.1.nes.ppu.scanline ≡ v.nes.ppu.scanline
  ctrl : r.1.nes.ppu.ctrl ≡ v.nes.ppu.ctrl
  overflow :
      common_bit_set r.1.nes.ppu.status 5
      ≡ (common_bit_set v.nes.ppu.status 5 || ltb 8 (count_on_line n v.nes.ppu))

is_on_line-same :
    (n : ℕ) (s t : Ppu)
    → t.sprram ≡ s.sprram
    → t.scanline ≡ s.scanline
    → t.ctrl ≡ s.ctrl
    → is_on_line n t ≡ is_on_line n s
unfolding ppu_sprite_height
is_on_line-same n s t a b c = rw (a, b, c) refl

-- A sprite on the line, after the flag is set if it is the ninth or a later one.
marked_overflow :
    (found : ℕ) (w : Video) (b : Bool)
    → common_bit_set w.nes.ppu.status 5 ≡ (b || ltb 8 found)
    → let marked =
        if ltb 8 (found + 1)
        then record w { nes = record (w.nes) { ppu = ppu_set_sprite_overflow w.nes.ppu true } }
        else w in
      (marked.nes.ppu.sprram ≡ w.nes.ppu.sprram)
      × (marked.nes.ppu.scanline ≡ w.nes.ppu.scanline)
      × (marked.nes.ppu.ctrl ≡ w.nes.ppu.ctrl)
      × (common_bit_set marked.nes.ppu.status 5 ≡ (b || ltb 8 (found + 1)))
unfolding ppu_set_sprite_overflow
marked_overflow found w b e = elim (Bool-cases (ltb 8 (found + 1))) [
  | inl many ↦ rw many (
    refl,
    refl,
    refl,
    common_bit_set-common_modify_bit 8 w.nes.ppu.status 5 5 true (omega arith) (omega arith)
          (omega arith)
        ∙ or_true b,
  )
  | inr few ↦
      let before : ltb 8 found ≡ false = ground (arith, few) in
      rw few (refl, refl, refl, e ∙ rw before refl)
]
  where
    or_true : (b : Bool) → true ≡ (b || true)
    or_true true = refl
    or_true false = refl

sprites-IsCounted : (n : ℕ) (v : Video) → IsCounted v n (sprites n v)
unfolding sprites count_on_line
sprites-IsCounted zero v = record {
  number = refl;
  sprram = refl;
  scanline = refl;
  ctrl = refl;
  overflow = ground (arith);
}
sprites-IsCounted (suc n) v =
    let h = sprites-IsCounted n v in
    let (found, w) = sprites n v in
    let same = is_on_line-same (n * 4) v.nes.ppu w.nes.ppu h.sprram h.scanline h.ctrl in
    elim (Bool-cases (is_on_line (n * 4) v.nes.ppu)) [
      | inl on ↦
          let flag = common_bit_set v.nes.ppu.status 5 in
          let m =
            marked_overflow found w flag (h.overflow ∙ ap (λ k. flag || ltb 8 k) (sym h.number)) in
          let marked : Video =
            if ltb 8 (found + 1)
            then record w { nes = record (w.nes) { ppu = ppu_set_sprite_overflow w.nes.ppu true } }
            else w in
          let drawn = sprite-IsSame (n * 4) marked in
          rw (same, on)
            (record {
              number = rw on (ap (λ k. k + 1) h.number);
              sprram = drawn.0 ∙ m.0 ∙ h.sprram;
              scanline = drawn.1 ∙ m.1 ∙ h.scanline;
              ctrl = drawn.2 ∙ m.2 ∙ h.ctrl;
              overflow = drawn.3 ∙ m.3 ∙ rw on (ap (λ k. flag || ltb 8 (k + 1)) h.number);
            })
      | inr off ↦
          rw (same, off)
            (record {
              number = rw off h.number;
              sprram = h.sprram;
              scanline = h.scanline;
              ctrl = h.ctrl;
              overflow = rw off h.overflow;
            })
    ]

-- After the sprites of a line the overflow flag is set if it was before, or if more than eight of the 64
-- sprites are on the line, and the sprites, the line and the control bits are as before.
pub ppu_draw_sprite_scanline-count_on_line :
    (v : Video)
    → let s = v.nes.ppu in
      let t = (ppu_draw_sprite_scanline v).nes.ppu in
      (common_bit_set t.status 5 ≡ (common_bit_set s.status 5 || ltb 8 (count_on_line 64 s)))
      × (t.sprram ≡ s.sprram)
      × (t.scanline ≡ s.scanline)
      × (t.ctrl ≡ s.ctrl)
unfolding ppu_draw_sprite_scanline
ppu_draw_sprite_scanline-count_on_line v =
    let h = sprites-IsCounted 64 v in (h.overflow, h.sprram, h.scanline, h.ctrl)
