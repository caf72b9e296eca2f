-- ===== src/Riscv/Vme/Descent.antt =====
-- The loop of `_map` as a whole: the page is mapped.
use wukong_am.Base.{ℕ, zero, suc, ◌+◌, ◌<◌, ◌≤◌, ◌≡◌, sym, ap, true, false, ◌∙◌, arith}
use wukong_am.Base.{Bool-cases, inl, inr}
use wukong_am.Riscv.Vme.{vpn_i, is_valid, Vm, map_level}
use wukong_am.Riscv.Vme.Entry.{is_leaf, link, link_lem, vpn_i-lt, vpn_i_page, prefix-suc, entry}
use wukong_am.Riscv.Vme.Walk.{walk-invalid, walk-link, or_else}
use wukong_am.Riscv.Vme.Table.{IsAllocator, Tag, cell, IsTable}
use wukong_am.Riscv.Vme.Frame.{IsOnWay, next_table}
use wukong_am.Riscv.Vme.Link.{
  link_page, link_tag, link_tag_old, link_tag_new, link_page-used, link_page_at, link_page_old,
  link_page-IsTable, link_page-walk, link_page_new,
}
use wukong_am.Riscv.Vme.Loop.{map_level_bottom, map_level_leaf, map_level_down, map_level_link}
use wukong_am.Riscv.Vme.Mapped.{
  IsMapped, valid_apart, old-IsMapped, set_leaf-IsMapped, map_level_down-IsMapped,
}

module _ (pages : ℕ → ℕ) (limit : ℕ) (p : IsAllocator pages limit) where
  -- The way to a table goes on through a linked page.
  link_page-IsOnWay :
      (s : Vm) (tag : ℕ → Tag) (j i level va k l : ℕ)
      → IsOnWay pages limit p s tag va k l
      → IsOnWay pages limit p (link_page pages s j i) (link_tag pages s tag j i level) va k l
  link_page-IsOnWay s tag j i level va k l way =
      let there = way.allocated in
      let old = link_tag_old pages s tag j i level k there in
      record {
        allocated = omega (arith, link_page-used pages s j i);
        level = ap (λ (t : Tag). t.level) old ∙ way.level;
        above = ap (λ (t : Tag). t.above) old ∙ way.above;
      }

  link_page_new-IsOnWay :
      (s : Vm) (tag : ℕ → Tag) (j level va : ℕ)
      → IsOnWay pages limit p s tag va j (suc level)
      → IsOnWay pages limit p
          (link_page pages s j (vpn_i va (suc level)))
          (link_tag pages s tag j (vpn_i va (suc level)) level)
          va
          s.used
          level
  link_page_new-IsOnWay s tag j level va way =
      let new = link_tag_new pages s tag j (vpn_i va (suc level)) level s.used (ground arith) in
      let high = way.above in
      record {
        allocated = omega (arith, link_page-used pages s j (vpn_i va (suc level)));
        level = ap (λ (t : Tag). t.level) new;
        above = ap (λ (t : Tag). t.above) new ∙ omega (arith, high, prefix-suc level va);
      }

  -- The page is mapped below a new table.
  map_level_link-IsMapped :
      (s u : Vm) (tag tag' : ℕ → Tag) (j level va e : ℕ)
      → s.used < limit
      → IsTable pages s tag
      → IsOnWay pages limit p s tag va j (suc level)
      → is_valid (s.mem (cell pages j (vpn_i va (suc level)))) ≡ false
      → IsMapped pages limit p
          (link_page pages s j (vpn_i va (suc level)))
          u
          (link_tag pages s tag j (vpn_i va (suc level)) level)
          tag'
          s.used
          level
          va
          e
      → IsMapped pages limit p s u tag tag' j (suc level) va e
  map_level_link-IsMapped s u tag tag' j level va e few t way free m =
      let i = vpn_i va (suc level) in
      let grown = link_page-used pages s j i in
      let a = p.aligned s.used few in
      let b = p.bounded s.used few in
      record {
        grows = (let g = m.grows in omega (arith, grown));
        few = (let f = m.few in omega (arith, grown));
        tags = λ k h. m.tags k (omega (arith, grown)) ∙ link_tag_old pages s tag j i level k h;
        table = m.table;
        kept = λ k i' hk hi' valid.
            let apart = valid_apart s.mem (cell pages k i') (cell pages j i) valid free in
            let same = link_page_old pages limit p s j i k i' hk few hi' apart in
            m.kept k i' (omega (arith, grown)) hi' (ap is_valid same ∙ valid) ∙ same;
        own = λ va' same.
            let slot = vpn_i_page va va' (suc level) (sym same) in
            let to : (link_page pages s j i).mem (cell pages j (vpn_i va' (suc level)))
                ≡ link (pages s.used) =
              ap (λ n. (link_page pages s j i).mem (cell pages j n)) (sym slot)
              ∙ link_page_at pages limit p s j i in
            let valid = ap is_valid to ∙ (link_lem (pages s.used) a b).1 in
            let kept' =
              m.kept j (vpn_i va' (suc level)) (let h = way.allocated in omega (arith, grown))
                (vpn_i-lt va' (suc level)) valid in
            let free' = ap (λ n. is_valid (s.mem (cell pages j n))) (sym slot) ∙ free in
            let zeros =
              link_page_new pages limit p s j i (vpn_i va' level) way.allocated few
                (vpn_i-lt va (suc level)) (vpn_i-lt va' level) in
            walk-link level (pages j) va' (pages s.used) u.mem (kept' ∙ to) a b
            ∙ m.own va' same
            ∙ ap (λ o. or_else o (e, 0))
                (walk-invalid level (pages s.used) va' (link_page pages s j i).mem
                    (ap is_valid zeros)
                  ∙ sym (walk-invalid (suc level) (pages j) va' s.mem free'));
        others = λ va' k l apart way'.
            m.others va' k l apart (link_page-IsOnWay s tag j i level va' k l way')
            ∙ link_page-walk pages limit p s tag j i level va' k l few t way.allocated
                (vpn_i-lt va (suc level)) way.level free way';
      }

  -- The loop maps the page, with `level` pages left for tables.
  pub map_level-IsMapped :
      (level j va pa prot : ℕ) (s : Vm) (tag : ℕ → Tag)
      → s.used + level ≤ limit
      → IsTable pages s tag
      → IsOnWay pages limit p s tag va j level
      → is_valid (entry pa prot) ≡ true
      → is_leaf (entry pa prot) ≡ true
      → (tag' : ℕ → Tag) × IsMapped pages limit p s
          (map_level pages level (pages j) va pa prot s)
          tag
          tag'
          j
          level
          va
          (entry pa prot)
  map_level-IsMapped zero j va pa prot s tag few t way valid leaf =
      elim (Bool-cases (is_valid (s.mem (cell pages j (vpn_i va 0))))) [
        | inl mapped ↦ (
          tag,
          rw (map_level_bottom pages j va pa prot s mapped)
              (old-IsMapped pages limit p s tag j va (entry pa prot) t way mapped),
        )
        | inr free ↦ (
          tag,
          rw (map_level_leaf pages j va pa prot s free) (
              set_leaf-IsMapped pages limit p s tag j va (entry pa prot) (omega arith) t way free
                valid leaf),
        )
      ]
  map_level-IsMapped (suc level) j va pa prot s tag few t way valid leaf =
      elim (Bool-cases (is_valid (s.mem (cell pages j (vpn_i va (suc level)))))) [
        | inl linked ↦
            let (next, to, way') =
              next_table pages limit p s tag va j level (omega arith) t way linked in
            let there = way'.allocated in
            let a = p.aligned next (omega arith) in
            let b = p.bounded next (omega arith) in
            let (tag', m) =
              map_level-IsMapped level next va pa prot s tag (omega arith) t way' valid leaf in
            (
              tag',
              rw (map_level_down pages level j va pa prot (pages next) s linked to a b) (
                  map_level_down-IsMapped pages limit p s
                    (map_level pages level (pages next) va pa prot s) tag tag' j next level va
                    (entry pa prot) (omega arith) way to there m),
            )
        | inr free ↦
            let i = vpn_i va (suc level) in
            let new = link_page pages s j i in
            let few' : new.used + level ≤ limit = omega (arith, link_page-used pages s j i) in
            let t' =
              link_page-IsTable pages limit p s tag j i level (omega arith) t way.allocated
                (vpn_i-lt va (suc level)) way.level in
            let (tag', m) =
              map_level-IsMapped level s.used va pa prot new (link_tag pages s tag j i level) few'
                t' (link_page_new-IsOnWay s tag j level va way) valid leaf in
            (
              tag',
              rw
                  (map_level_link pages level j va pa prot s free (p.aligned s.used (omega arith))
                    (p.bounded s.used (omega arith)))
                  (map_level_link-IsMapped s (map_level pages level (pages s.used) va pa prot new)
                    tag tag' j level va (entry pa prot) (omega arith) t way free m),
            )
      ]
