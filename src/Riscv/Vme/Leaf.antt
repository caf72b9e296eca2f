-- ===== src/Riscv/Vme/Leaf.antt =====
-- A new leaf in an invalid entry of the last level.
use wukong_am.Base.{ℕ, zero, suc, ◌/◌, ◌<◌, ◌≤◌, ◌≡◌, ◌≢◌, refl, sym, ap, true, false, ◌∙◌, arith}
use wukong_am.Base.{some, Bool-cases, inl, inr, ◌==◌}
use wukong_am.Base.Bytes.{write}
use wukong_am.Riscv.Vme.{vpn_i, is_valid, Vm}
use wukong_am.Riscv.Vme.Entry.{is_leaf, vpn_i-lt, vpn_i_page, prefix-zero}
use wukong_am.Riscv.Vme.Walk.{walk, walk-leaf}
use wukong_am.Riscv.Vme.Table.{IsAllocator, Tag, cell, IsTable, cell_distinct}
use wukong_am.Riscv.Vme.Frame.{IsOnWay, walk_frame}

module _ (pages : ℕ → ℕ) (limit : ℕ) (p : IsAllocator pages limit) where
  abbrev pub set_leaf : Vm → ℕ → ℕ → ℕ → Vm
  set_leaf s j i e = record s { mem = write s.mem (cell pages j i) e }

  set_leaf_at : (s : Vm) (j i e : ℕ) → (set_leaf s j i e).mem (cell pages j i) ≡ e
  set_leaf_at s j i e = ground arith

  pub set_leaf_old :
      (s : Vm) (j i e k i' : ℕ)
      → (cell pages k i' == cell pages j i) ≡ false
      → (set_leaf s j i e).mem (cell pages k i') ≡ s.mem (cell pages k i')
  set_leaf_old s j i e k i' other = rw other refl

  -- An entry of a table of another level is another entry.
  other_level :
      (s : Vm) (tag : ℕ → Tag) (j i k i' level : ℕ)
      → s.used ≤ limit
      → j < s.used
      → k < s.used
      → i < 512
      → i' < 512
      → (tag j).level ≡ 0
      → (tag k).level ≡ suc level
      → (cell pages k i' == cell pages j i) ≡ false
  other_level s tag j i k i' level few hj hk hi hi' a b =
      elim (Bool-cases (cell pages k i' == cell pages j i)) [
        | inl at ↦
            let (same, slot) =
              cell_distinct pages limit k j i' i p (omega arith) (omega arith) hi' hi
                (ground arith) in
            let level_same = ap (λ n. (tag n).level) same in
            absurd (omega (arith, level_same, a, b))
        | inr other ↦ other
      ]

  pub set_leaf-IsTable :
      (s : Vm) (tag : ℕ → Tag) (j i e : ℕ)
      → s.used ≤ limit
      → IsTable pages s tag
      → j < s.used
      → i < 512
      → (tag j).level ≡ 0
      → is_leaf e ≡ true
      → IsTable pages (set_leaf s j i e) tag
  set_leaf-IsTable s tag j i e few t hj hi bottom leaf = record {
    below = λ k i' l hk hi' hl valid.
        let same =
          set_leaf_old s j i e k i' (other_level s tag j i k i' l few hj hk hi hi' bottom hl) in
        let (x, b) = t.below k i' l hk hi' hl (sym (ap is_valid same) ∙ valid) in
        (
          x,
          record {
            allocated = b.allocated;
            linked = same ∙ b.linked;
            level = b.level;
            above = b.above;
          },
        );
    leaves = λ k i' hk hi' hl valid. elim (Bool-cases (cell pages k i' == cell pages j i)) [
      | inl at ↦ rw at leaf
      | inr other ↦
          let same = set_leaf_old s j i e k i' other in
          ap is_leaf same ∙ t.leaves k i' hk hi' hl (sym (ap is_valid same) ∙ valid)
    ];
  }

  -- The walks of addresses in other pages stay.
  pub set_leaf-walk :
      (s : Vm) (tag : ℕ → Tag) (j va e va' k l : ℕ)
      → s.used ≤ limit
      → IsTable pages s tag
      → IsOnWay pages limit p s tag va j 0
      → va' / 4096 ≢ va / 4096
      → IsOnWay pages limit p s tag va' k l
      → walk l (pages k) va' (set_leaf s j (vpn_i va 0) e).mem ≡ walk l (pages k) va' s.mem
  set_leaf-walk s tag j va e va' k l few t at apart way =
      walk_frame pages limit p s tag (set_leaf s j (vpn_i va 0) e).mem va' few t
        (λ k' l' way'. inl (stays k' l' way')) k l way
    where
      stays :
          (k' l' : ℕ)
          → IsOnWay pages limit p s tag va' k' l'
          → (set_leaf s j (vpn_i va 0) e).mem (cell pages k' (vpn_i va' l'))
            ≡ s.mem (cell pages k' (vpn_i va' l'))
      stays k' zero way' =
          elim (Bool-cases (cell pages k' (vpn_i va' 0) == cell pages j (vpn_i va 0))) [
            | inl here ↦
                let hk = way'.allocated in
                let hj = at.allocated in
                let (same, slot) =
                  cell_distinct pages limit k' j (vpn_i va' 0) (vpn_i va 0) p (omega arith)
                    (omega arith) (vpn_i-lt va' 0) (vpn_i-lt va 0) (ground arith) in
                let both = sym way'.above ∙ ap (λ n. (tag n).above) same ∙ at.above in
                absurd (apart (omega (arith, both, slot, prefix-zero va, prefix-zero va')))
            | inr other ↦ set_leaf_old s j (vpn_i va 0) e k' (vpn_i va' 0) other
          ]
      stays k' (suc l') way' = set_leaf_old s j (vpn_i va 0) e k' (vpn_i va' (suc l')) (
          other_level s tag j (vpn_i va 0) k' (vpn_i va' (suc l')) l' few at.allocated
            way'.allocated (vpn_i-lt va 0) (vpn_i-lt va' (suc l')) at.level way'.level)

  -- The walks of addresses in the page end at the leaf.
  pub set_leaf-own :
      (s : Vm) (j va va' e : ℕ)
      → va' / 4096 ≡ va / 4096
      → is_valid e ≡ true
      → is_leaf e ≡ true
      → walk 0 (pages j) va' (set_leaf s j (vpn_i va 0) e).mem ≡ some (e, 0)
  set_leaf-own s j va va' e same valid leaf =
      let m = (set_leaf s j (vpn_i va 0) e).mem in
      let at : m (cell pages j (vpn_i va' 0)) ≡ e =
        ap (λ i. m (cell pages j i)) (vpn_i_page va' va 0 same) ∙ set_leaf_at s j (vpn_i va 0) e in
      walk-leaf (pages j) va' m (ap is_valid at ∙ valid) (ap is_leaf at ∙ leaf)
      ∙ ap (λ x. some (x, 0)) at
