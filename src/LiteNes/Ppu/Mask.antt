-- ===== src/LiteNes/Ppu/Mask.antt =====
-- apps/litenes/src/ppu.c: the bits of the mask and of the status register, by name.
use wukong_am.Base.{Bool}
use wukong_am.LiteNes.Bits.{common_bit_set, common_modify_bit}
use wukong_am.LiteNes.Ppu.{Ppu}

pub ppu_renders_grayscale : Ppu → Bool
ppu_renders_grayscale s = common_bit_set s.mask 0

pub ppu_shows_background_in_leftmost_8px : Ppu → Bool
ppu_shows_background_in_leftmost_8px s = common_bit_set s.mask 1

pub ppu_shows_sprites_in_leftmost_8px : Ppu → Bool
ppu_shows_sprites_in_leftmost_8px s = common_bit_set s.mask 2

pub ppu_shows_background : Ppu → Bool
ppu_shows_background s = common_bit_set s.mask 3

pub ppu_shows_sprites : Ppu → Bool
ppu_shows_sprites s = common_bit_set s.mask 4

pub ppu_intensifies_reds : Ppu → Bool
ppu_intensifies_reds s = common_bit_set s.mask 5

pub ppu_intensifies_greens : Ppu → Bool
ppu_intensifies_greens s = common_bit_set s.mask 6

pub ppu_intensifies_blues : Ppu → Bool
ppu_intensifies_blues s = common_bit_set s.mask 7

pub ppu_set_renders_grayscale : Ppu → Bool → Ppu
ppu_set_renders_grayscale s yesno = record s { mask = common_modify_bit 8 s.mask 0 yesno }

pub ppu_set_shows_background_in_leftmost_8px : Ppu → Bool → Ppu
ppu_set_shows_background_in_leftmost_8px s yesno = record s {
  mask = common_modify_bit 8 s.mask 1 yesno;
}

pub ppu_set_shows_sprites_in_leftmost_8px : Ppu → Bool → Ppu
ppu_set_shows_sprites_in_leftmost_8px s yesno = record s {
  mask = common_modify_bit 8 s.mask 2 yesno;
}

pub ppu_set_shows_background : Ppu → Bool → Ppu
ppu_set_shows_background s yesno = record s { mask = common_modify_bit 8 s.mask 3 yesno }

pub ppu_set_shows_sprites : Ppu → Bool → Ppu
ppu_set_shows_sprites s yesno = record s { mask = common_modify_bit 8 s.mask 4 yesno }

pub ppu_set_intensifies_reds : Ppu → Bool → Ppu
ppu_set_intensifies_reds s yesno = record s { mask = common_modify_bit 8 s.mask 5 yesno }

pub ppu_set_intensifies_greens : Ppu → Bool → Ppu
ppu_set_intensifies_greens s yesno = record s { mask = common_modify_bit 8 s.mask 6 yesno }

pub ppu_set_intensifies_blues : Ppu → Bool → Ppu
ppu_set_intensifies_blues s yesno = record s { mask = common_modify_bit 8 s.mask 7 yesno }

pub ppu_sprite_overflow : Ppu → Bool
ppu_sprite_overflow s = common_bit_set s.status 5

pub ppu_sprite_0_hit : Ppu → Bool
ppu_sprite_0_hit s = common_bit_set s.status 6

pub ppu_in_vblank : Ppu → Bool
ppu_in_vblank s = common_bit_set s.status 7

unfoldable pub ppu_set_sprite_overflow : Ppu → Bool → Ppu
ppu_set_sprite_overflow s yesno = record s { status = common_modify_bit 8 s.status 5 yesno }
