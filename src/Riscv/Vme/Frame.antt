-- ===== src/Riscv/Vme/Frame.antt =====
-- A change of the tables that keeps the walks.
use wukong_am.Base.{ℕ, zero, suc, ◌<◌, ◌≤◌, ◌≡◌, sym, ap, true, ◌∙◌, arith}
use wukong_am.Base.{Bool-cases, inl, inr, ◌⊎◌}
use wukong_am.Base.Bytes.{Array}
use wukong_am.Riscv.Vme.{vpn_i, is_valid, Vm}
use wukong_am.Riscv.Vme.Entry.{link, vpn_i-lt, prefix, prefix-suc}
use wukong_am.Riscv.Vme.Walk.{walk, walk-invalid, walk-link, walk-cell}
use wukong_am.Riscv.Vme.Table.{IsAllocator, Tag, cell, IsTable}

module _ (pages : ℕ → ℕ) (limit : ℕ) (p : IsAllocator pages limit) where
  -- The table of `level` on the way to `va` is on page `k`.
  pub record IsOnWay (s : Vm) (tag : ℕ → Tag) (va k l : ℕ) : Type 0 where
    pub allocated : k < s.used
    pub level : (tag k).level ≡ l
    pub above : (tag k).above ≡ prefix l va

  -- The next table on the way.
  pub next_table :
      (s : Vm) (tag : ℕ → Tag) (va k level : ℕ)
      → s.used ≤ limit
      → IsTable pages s tag
      → IsOnWay s tag va k (suc level)
      → is_valid (s.mem (cell pages k (vpn_i va (suc level)))) ≡ true
      → (next : ℕ) × (s.mem (cell pages k (vpn_i va (suc level))) ≡ link (pages next))
        × IsOnWay s tag va next level
  next_table s tag va k level few t way valid =
      let (next, b) =
        t.below k (vpn_i va (suc level)) level way.allocated (vpn_i-lt va (suc level)) way.level
          valid in
      (
        next,
        b.linked,
        record {
          allocated = b.allocated;
          level = (let l = b.level in let m = way.level in omega arith);
          above = (let a = b.above in let c = way.above in omega (arith, prefix-suc level va));
        },
      )

  -- The walks of `va` stay when each entry on the way stays or its walk does.
  pub walk_frame :
      (s : Vm) (tag : ℕ → Tag) (m : Array) (va : ℕ)
      → s.used ≤ limit
      → IsTable pages s tag
      → ((k level : ℕ)
          → IsOnWay s tag va k level
          → (m (cell pages k (vpn_i va level)) ≡ s.mem (cell pages k (vpn_i va level)))
            ⊎ (walk level (pages k) va m ≡ walk level (pages k) va s.mem))
      → (k level : ℕ) → IsOnWay s tag va k level
      → walk level (pages k) va m ≡ walk level (pages k) va s.mem
  walk_frame s tag m va few t stays k zero way = elim (stays k 0 way) [
    | inr walks ↦ walks
    | inl same ↦ walk-cell (pages k) va m s.mem same
  ]
  walk_frame s tag m va few t stays k (suc level) way = elim (stays k (suc level) way) [
    | inr walks ↦ walks
    | inl same ↦ elim (Bool-cases (is_valid (s.mem (cell pages k (vpn_i va (suc level)))))) [
      | inl valid ↦
          let (next, linked, way') = next_table s tag va k level few t way valid in
          let a = p.aligned next (let u = way'.allocated in omega arith) in
          let b = p.bounded next (let u = way'.allocated in omega arith) in
          walk-link level (pages k) va (pages next) m (same ∙ linked) a b
          ∙ walk_frame s tag m va few t stays next level way'
          ∙ sym (walk-link level (pages k) va (pages next) s.mem linked a b)
      | inr invalid ↦
          walk-invalid (suc level) (pages k) va m (ap is_valid same ∙ invalid)
          ∙ sym (walk-invalid (suc level) (pages k) va s.mem invalid)
    ]
  ]
