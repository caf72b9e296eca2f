-- ===== src/Riscv/Vme/Link.antt =====
-- A new table below an invalid entry.
use wukong_am.Base.{ℕ, suc, ◌+◌, ◌*◌, ◌<◌, ◌≡◌, refl, sym, ap, true, false, ◌∙◌, arith}
use wukong_am.Base.{Bool-cases, inl, inr, ◌⊎◌, ◌==◌, if◌then◌else◌}
use wukong_am.Base.Bytes.{write}
use wukong_am.Riscv.Vme.{vpn_i, is_valid, Vm, clear_page}
use wukong_am.Riscv.Vme.Entry.{is_leaf, link, vpn_i-lt}
use wukong_am.Riscv.Vme.Walk.{walk, walk-invalid, walk-link}
use wukong_am.Riscv.Vme.Table.{IsAllocator, Tag, cell, IsBelow, IsTable, cell_distinct}
use wukong_am.Riscv.Vme.Frame.{IsOnWay, walk_frame}

module _ (pages : ℕ → ℕ) where
  -- The next page, cleared and linked into slot `i` of page `j`.
  unfoldable pub link_page : Vm → ℕ → ℕ → Vm
  link_page s j i = record {
    mem = write (clear_page s.mem (pages s.used)) (cell pages j i) (link (pages s.used));
    used = s.used + 1;
  }

  pub link_tag : Vm → (ℕ → Tag) → ℕ → ℕ → ℕ → ℕ → Tag
  link_tag s tag j i level k =
      if k == s.used then record { level = level; above = (tag j).above * 512 + i } else tag k

  pub link_tag_old :
      (s : Vm) (tag : ℕ → Tag) (j i level k : ℕ) → k < s.used → link_tag s tag j i level k ≡ tag k
  unfolding link_tag
  link_tag_old s tag j i level k h = let e : (k == s.used) ≡ false = ground arith in rw e refl

  pub link_tag_new :
      (s : Vm) (tag : ℕ → Tag) (j i level k : ℕ)
      → (k == s.used) ≡ true
      → link_tag s tag j i level k ≡ record { level = level; above = (tag j).above * 512 + i }
  unfolding link_tag
  link_tag_new s tag j i level k h = rw h refl

  pub link_page-used : (s : Vm) (j i : ℕ) → (link_page s j i).used ≡ s.used + 1
  unfolding link_page
  link_page-used s j i = refl

  module _ (limit : ℕ) (p : IsAllocator pages limit) where
    -- The linked entry, the entries of the new page, and all others.
    pub link_page_at :
        (s : Vm) (j i : ℕ) → (link_page s j i).mem (cell pages j i) ≡ link (pages s.used)
    unfolding link_page
    link_page_at s j i = ground arith

    pub link_page_new :
        (s : Vm) (j i i' : ℕ)
        → j < s.used
        → s.used < limit
        → i < 512
        → i' < 512
        → (link_page s j i).mem (cell pages s.used i') ≡ 0
    unfolding link_page
    link_page_new s j i i' hj few hi hi' =
        let other : cell pages s.used i' ≡ cell pages j i → s.used ≡ j =
          λ e. (cell_distinct pages limit s.used j i' i p few (omega arith) hi' hi e).0 in
        ground (arith, other)

    pub link_page_old :
        (s : Vm) (j i k i' : ℕ)
        → k < s.used
        → s.used < limit
        → i' < 512
        → (cell pages k i' == cell pages j i) ≡ false
        → (link_page s j i).mem (cell pages k i') ≡ s.mem (cell pages k i')
    unfolding link_page
    link_page_old s j i k i' hk few hi' other =
        let a = p.aligned k (omega arith) in
        let b = p.aligned s.used few in
        let apart : pages k ≡ pages s.used → k ≡ s.used =
          λ e. p.distinct k s.used (omega arith) few e in
        ground (arith, apart)

    -- A valid entry is the linked one or an old one.
    link_page_valid :
        (s : Vm) (j i k i' : ℕ)
        → j < s.used
        → s.used < limit
        → i < 512
        → k < s.used + 1
        → i' < 512
        → is_valid ((link_page s j i).mem (cell pages k i')) ≡ true
        → ((k ≡ j) × (i' ≡ i))
          ⊎ ((k < s.used) × ((link_page s j i).mem (cell pages k i') ≡ s.mem (cell pages k i')))
    link_page_valid s j i k i' hj few hi hk hi' valid =
        elim (Bool-cases (cell pages k i' == cell pages j i)) [
          | inl at ↦ inl (
              cell_distinct pages limit k j i' i p (omega arith) (omega arith) hi' hi
                (ground arith))
          | inr other ↦ elim (Bool-cases (k == s.used)) [
            | inl new ↦
                let e : k ≡ s.used = ground arith in
                let zeros : (link_page s j i).mem (cell pages k i') ≡ 0 =
                  ap (λ n. (link_page s j i).mem (cell pages n i')) e
                  ∙ link_page_new s j i i' hj few hi hi' in
                absurd (ground (arith, zeros, valid))
            | inr old ↦
                let before : k < s.used = ground arith in
                inr (before, link_page_old s j i k i' before few hi' other)
          ]
        ]

    -- The linked entry leads to the new page.
    link_page-IsBelow :
        (s : Vm) (tag : ℕ → Tag) (j i level k i' : ℕ)
        → (tag j).level ≡ suc level
        → j < s.used
        → (k ≡ j) × (i' ≡ i)
        → IsBelow pages (link_page s j i) (link_tag s tag j i level) k i' s.used
    unfolding link_page
    link_page-IsBelow s tag j i level k i' up hj (a, b) =
        let before : k < s.used = omega (arith, a) in
        let new = link_tag_new s tag j i level s.used (ground arith) in
        let old = link_tag_old s tag j i level k before ∙ ap tag a in
        let place : cell pages k i' ≡ cell pages j i =
          ap (λ t. pages t + 8 * i') a ∙ omega (arith, b) in
        record {
          allocated = (omega arith);
          linked = ap (link_page s j i).mem place ∙ link_page_at s j i;
          level = ap (λ (t : Tag). suc t.level) new ∙ sym up ∙ sym (ap (λ (t : Tag). t.level) old);
          above = ap (λ (t : Tag). t.above) new ∙ omega (arith, b, ap (λ (t : Tag). t.above) old);
        }

    -- An old entry leads where it did.
    link_page_old-IsBelow :
        (s : Vm) (tag : ℕ → Tag) (j i level k i' x : ℕ)
        → k < s.used
        → (link_page s j i).mem (cell pages k i') ≡ s.mem (cell pages k i')
        → IsBelow pages s tag k i' x
        → IsBelow pages (link_page s j i) (link_tag s tag j i level) k i' x
    link_page_old-IsBelow s tag j i level k i' x before same b =
        let there = b.allocated in
        let old = link_tag_old s tag j i level k before in
        let old' = link_tag_old s tag j i level x there in
        record {
          allocated = omega (arith, link_page-used s j i);
          linked = same ∙ b.linked;
          level =
              ap (λ (t : Tag). suc t.level) old' ∙ b.level ∙ sym (ap (λ (t : Tag). t.level) old);
          above =
              ap (λ (t : Tag). t.above) old'
              ∙ b.above
              ∙ sym (ap (λ (t : Tag). t.above * 512 + i') old);
        }

    pub link_page-IsTable :
        (s : Vm) (tag : ℕ → Tag) (j i level : ℕ)
        → s.used < limit
        → IsTable pages s tag
        → j < s.used
        → i < 512
        → (tag j).level ≡ suc level
        → IsTable pages (link_page s j i) (link_tag s tag j i level)
    link_page-IsTable s tag j i level few t hj hi up =
        let grown : (link_page s j i).used ≡ s.used + 1 = link_page-used s j i in
        record {
          below = λ k i' l hk hi' hl valid.
              elim (link_page_valid s j i k i' hj few hi (omega (arith, grown)) hi' valid) [
                | inl here ↦ (s.used, link_page-IsBelow s tag j i level k i' up hj here)
                | inr (before, same) ↦
                    let kept = ap (λ (t : Tag). t.level) (link_tag_old s tag j i level k before) in
                    let (x, b) =
                      t.below k i' l before hi' (sym kept ∙ hl) (sym (ap is_valid same) ∙ valid) in
                    (x, link_page_old-IsBelow s tag j i level k i' x before same b)
              ];
          leaves = λ k i' hk hi' hl valid.
              elim (link_page_valid s j i k i' hj few hi (omega (arith, grown)) hi' valid) [
                | inl here ↦
                    let b = link_page-IsBelow s tag j i level k i' up hj here in
                    let l = b.level in absurd (omega (arith, l, hl))
                | inr (before, same) ↦
                    let kept = ap (λ (t : Tag). t.level) (link_tag_old s tag j i level k before) in
                    ap is_leaf same
                    ∙ t.leaves k i' before hi' (sym kept ∙ hl) (sym (ap is_valid same) ∙ valid)
              ];
        }

    -- Through the new table there is no walk, as there was none through the invalid entry.
    link_page_detour :
        (s : Vm) (j i level va k : ℕ)
        → s.used < limit
        → j < s.used
        → i < 512
        → is_valid (s.mem (cell pages j i)) ≡ false
        → cell pages k (vpn_i va (suc level)) ≡ cell pages j i
        → walk (suc level) (pages k) va (link_page s j i).mem ≡ walk (suc level) (pages k) va s.mem
    link_page_detour s j i level va k few hj hi free place =
        let m = (link_page s j i).mem in
        let to = ap m place ∙ link_page_at s j i in
        let a = p.aligned s.used few in
        let zeros = link_page_new s j i (vpn_i va level) hj few hi (vpn_i-lt va level) in
        walk-link level (pages k) va (pages s.used) m to a (p.bounded s.used few)
        ∙ walk-invalid level (pages s.used) va m (ap is_valid zeros)
        ∙ sym (
            walk-invalid (suc level) (pages k) va s.mem (ap (λ c. is_valid (s.mem c)) place ∙ free))

    -- The walks from the old tables stay.
    pub link_page-walk :
        (s : Vm) (tag : ℕ → Tag) (j i level va k l : ℕ)
        → s.used < limit
        → IsTable pages s tag
        → j < s.used
        → i < 512
        → (tag j).level ≡ suc level
        → is_valid (s.mem (cell pages j i)) ≡ false
        → IsOnWay pages limit p s tag va k l
        → walk l (pages k) va (link_page s j i).mem ≡ walk l (pages k) va s.mem
    link_page-walk s tag j i level va k l few t hj hi up free way =
        walk_frame pages limit p s tag (link_page s j i).mem va (omega arith) t stays k l way
      where
        stays :
            (k' l' : ℕ)
            → IsOnWay pages limit p s tag va k' l'
            → ((link_page s j i).mem (cell pages k' (vpn_i va l'))
                ≡ s.mem (cell pages k' (vpn_i va l')))
              ⊎ (walk l' (pages k') va (link_page s j i).mem ≡ walk l' (pages k') va s.mem)
        stays k' l' way' = elim (Bool-cases (cell pages k' (vpn_i va l') == cell pages j i)) [
          | inl at ↦
              let there = way'.allocated in
              let place : cell pages k' (vpn_i va l') ≡ cell pages j i = ground arith in
              let (same, slot) =
                cell_distinct pages limit k' j (vpn_i va l') i p (omega arith) (omega arith)
                  (vpn_i-lt va l') hi place in
              let deep : l' ≡ suc level = sym way'.level ∙ ap (λ n. (tag n).level) same ∙ up in
              inr (
                rw deep (
                  link_page_detour s j i level va k' few hj hi free
                    (ap (λ n. cell pages k' (vpn_i va n)) (sym deep) ∙ place)))
          | inr other ↦
              let there = way'.allocated in
              inl (link_page_old s j i k' (vpn_i va l') there few (vpn_i-lt va l') other)
        ]
