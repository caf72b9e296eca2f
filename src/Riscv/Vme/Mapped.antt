-- ===== src/Riscv/Vme/Mapped.antt =====
-- What the loop of `_map` does to the tables and to the walks.
use wukong_am.Base.{ℕ, suc, ◌+◌, ◌/◌, ◌<◌, ◌≤◌, ◌≡◌, ◌≢◌, refl, sym, ap, true, false, ◌∙◌, arith}
use wukong_am.Base.{Option, some, Bool-cases, inl, inr, ◌==◌}
use wukong_am.Base.Bytes.{Array}
use wukong_am.Riscv.Vme.{vpn_i, is_valid, Vm}
use wukong_am.Riscv.Vme.Entry.{is_leaf, link, link_lem, vpn_i-lt, vpn_i_page}
use wukong_am.Riscv.Vme.Walk.{walk, walk-invalid, walk-link, walk-leaf, or_else}
use wukong_am.Riscv.Vme.Table.{IsAllocator, Tag, cell, IsTable}
use wukong_am.Riscv.Vme.Frame.{IsOnWay}
use wukong_am.Riscv.Vme.Leaf.{set_leaf, set_leaf_old, set_leaf-IsTable, set_leaf-walk, set_leaf-own}

pub or_else-some : (o : Option (ℕ × ℕ)) (d e : ℕ × ℕ) → o ≡ some d → or_else o e ≡ o
or_else-some o d e h = rw h refl

-- A valid entry and an invalid one stand at different addresses.
pub valid_apart :
    (m : Array) (a b : ℕ) → is_valid (m a) ≡ true → is_valid (m b) ≡ false → (a == b) ≡ false
valid_apart m a b h k = elim (Bool-cases (a == b)) [
  | inl at ↦
      let e : a ≡ b = ground arith in
      absurd (ground (arith, sym h ∙ ap (λ c. is_valid (m c)) e ∙ k))
  | inr other ↦ other
]

module _ (pages : ℕ → ℕ) (limit : ℕ) (p : IsAllocator pages limit) where
  -- From `s` to `t`, the page of `va` is mapped to the leaf `e` below the table of level `l` on page
  -- `j`, if it was not mapped; all other walks, the valid entries and the tags stay.
  pub record IsMapped (s t : Vm) (tag tag' : ℕ → Tag) (j l va e : ℕ) : Type 0 where
    pub grows : s.used ≤ t.used
    pub few : t.used ≤ s.used + l
    pub tags : (k : ℕ) → k < s.used → tag' k ≡ tag k
    pub table : IsTable pages t tag'
    pub kept :
        (k i : ℕ)
        → k < s.used
        → i < 512
        → is_valid (s.mem (cell pages k i)) ≡ true
        → t.mem (cell pages k i) ≡ s.mem (cell pages k i)
    pub own :
        (va' : ℕ)
        → va' / 4096 ≡ va / 4096
        → walk l (pages j) va' t.mem ≡ or_else (walk l (pages j) va' s.mem) (e, 0)
    pub others :
        (va' k level : ℕ)
        → va' / 4096 ≢ va / 4096
        → IsOnWay pages limit p s tag va' k level
        → walk level (pages k) va' t.mem ≡ walk level (pages k) va' s.mem

  -- The page was mapped already.
  pub old-IsMapped :
      (s : Vm) (tag : ℕ → Tag) (j va e : ℕ)
      → IsTable pages s tag
      → IsOnWay pages limit p s tag va j 0
      → is_valid (s.mem (cell pages j (vpn_i va 0))) ≡ true
      → IsMapped s s tag tag j 0 va e
  old-IsMapped s tag j va e t way valid = record {
    grows = (omega arith);
    few = (omega arith);
    tags = λ k h. refl;
    table = t;
    kept = λ k i hk hi h. refl;
    own = λ va' same.
        let slot = vpn_i_page va va' 0 (sym same) in
        let valid' = ap (λ i. is_valid (s.mem (cell pages j i))) (sym slot) ∙ valid in
        let leaf = t.leaves j (vpn_i va' 0) way.allocated (vpn_i-lt va' 0) way.level valid' in
        let w = walk-leaf (pages j) va' s.mem valid' leaf in
        sym (
          or_else-some (walk 0 (pages j) va' s.mem) (s.mem (cell pages j (vpn_i va' 0)), 0) (e, 0)
            w);
    others = λ va' k level apart way'. refl;
  }

  -- The page is mapped here.
  pub set_leaf-IsMapped :
      (s : Vm) (tag : ℕ → Tag) (j va e : ℕ)
      → s.used ≤ limit
      → IsTable pages s tag
      → IsOnWay pages limit p s tag va j 0
      → is_valid (s.mem (cell pages j (vpn_i va 0))) ≡ false
      → is_valid e ≡ true
      → is_leaf e ≡ true
      → IsMapped s (set_leaf pages limit p s j (vpn_i va 0) e) tag tag j 0 va e
  set_leaf-IsMapped s tag j va e few t way free valid leaf = record {
    grows = (omega arith);
    few = (omega arith);
    tags = λ k h. refl;
    table =
        set_leaf-IsTable pages limit p s tag j (vpn_i va 0) e few t way.allocated (vpn_i-lt va 0)
          way.level leaf;
    kept = λ k i hk hi h.
        set_leaf_old pages limit p s j (vpn_i va 0) e k i
          (valid_apart s.mem (cell pages k i) (cell pages j (vpn_i va 0)) h free);
    own = λ va' same.
        let slot = vpn_i_page va va' 0 (sym same) in
        let free' = ap (λ i. is_valid (s.mem (cell pages j i))) (sym slot) ∙ free in
        set_leaf-own pages limit p s j va va' e same valid leaf
        ∙ ap (λ o. or_else o (e, 0)) (sym (walk-invalid 0 (pages j) va' s.mem free'));
    others = λ va' k level apart way'.
        set_leaf-walk pages limit p s tag j va e va' k level few t way apart way';
  }

  -- The page is mapped below the next table.
  pub map_level_down-IsMapped :
      (s u : Vm) (tag tag' : ℕ → Tag) (j next level va e : ℕ)
      → s.used ≤ limit
      → IsOnWay pages limit p s tag va j (suc level)
      → s.mem (cell pages j (vpn_i va (suc level))) ≡ link (pages next)
      → next < s.used
      → IsMapped s u tag tag' next level va e
      → IsMapped s u tag tag' j (suc level) va e
  map_level_down-IsMapped s u tag tag' j next level va e few way linked there m = record {
    grows = m.grows;
    few = (let f = m.few in omega arith);
    tags = m.tags;
    table = m.table;
    kept = m.kept;
    own = λ va' same.
        let a = p.aligned next (omega arith) in
        let b = p.bounded next (omega arith) in
        let slot = vpn_i_page va va' (suc level) (sym same) in
        let linked' = ap (λ i. s.mem (cell pages j i)) (sym slot) ∙ linked in
        let valid' = ap is_valid linked' ∙ (link_lem (pages next) a b).1 in
        let kept' =
          m.kept j (vpn_i va' (suc level)) way.allocated (vpn_i-lt va' (suc level)) valid' in
        walk-link level (pages j) va' (pages next) u.mem (kept' ∙ linked') a b
        ∙ m.own va' same
        ∙ ap (λ o. or_else o (e, 0))
            (sym (walk-link level (pages j) va' (pages next) s.mem linked' a b));
    others = m.others;
  }
