-- ===== src/Riscv/Vme/Loop.antt =====
-- The steps of the loop of `_map` in am/src/nemu/isa/riscv/vme.c.
use wukong_am.Base.{ℕ, suc, ◌+◌, ◌%◌, ◌^◌, ◌<◌, ◌≡◌, refl, ap, true, false, ◌∙◌}
use wukong_am.Base.Bytes.{write}
use wukong_am.Riscv.Vme.{vpn_i, is_valid, Vm, clear_page, map_level, new_page, pte_addr}
use wukong_am.Riscv.Vme.Entry.{link, link_lem, entry}
use wukong_am.Riscv.Vme.Table.{cell}
use wukong_am.Riscv.Vme.Link.{link_page}

module _ (pages : ℕ → ℕ) where
  -- The steps of the loop.
  pub map_level_bottom :
      (j va pa prot : ℕ) (s : Vm)
      → is_valid (s.mem (cell pages j (vpn_i va 0))) ≡ true
      → map_level pages 0 (pages j) va pa prot s ≡ s
  unfolding map_level
  map_level_bottom j va pa prot s h = rw h refl

  pub map_level_leaf :
      (j va pa prot : ℕ) (s : Vm)
      → is_valid (s.mem (cell pages j (vpn_i va 0))) ≡ false
      → map_level pages 0 (pages j) va pa prot s
        ≡ record s { mem = write s.mem (cell pages j (vpn_i va 0)) (entry pa prot) }
  unfolding map_level entry
  map_level_leaf j va pa prot s h = rw h refl

  pub map_level_down :
      (level j va pa prot page : ℕ) (s : Vm)
      → is_valid (s.mem (cell pages j (vpn_i va (suc level)))) ≡ true
      → s.mem (cell pages j (vpn_i va (suc level))) ≡ link page
      → page % 4096 ≡ 0
      → page < 2 ^ 56
      → map_level pages (suc level) (pages j) va pa prot s ≡ map_level pages level page va pa prot s
  unfolding map_level
  map_level_down level j va pa prot page s h e a b =
      rw h (ap (λ q. map_level pages level q va pa prot s) (ap pte_addr e ∙ (link_lem page a b).3))

  pub map_level_link :
      (level j va pa prot : ℕ) (s : Vm)
      → is_valid (s.mem (cell pages j (vpn_i va (suc level)))) ≡ false
      → pages s.used % 4096 ≡ 0
      → pages s.used < 2 ^ 56
      → map_level pages (suc level) (pages j) va pa prot s
        ≡ map_level pages level
            (pages s.used)
            va
            pa
            prot
            (link_page pages s j (vpn_i va (suc level)))
  unfolding map_level new_page link_page
  map_level_link level j va pa prot s h a b = rw h (
      ap
        (λ e. map_level pages level (pages s.used) va pa prot (record {
          mem = write (clear_page s.mem (pages s.used)) (cell pages j (vpn_i va (suc level))) e;
          used = s.used + 1;
        }))
        (link_lem (pages s.used) a b).0)
