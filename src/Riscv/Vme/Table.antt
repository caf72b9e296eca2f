-- ===== src/Riscv/Vme/Table.antt =====
-- The tables in memory: which page holds which table, and where its entries lead.
use wukong_am.Base.{ℕ, suc, ◌+◌, ◌*◌, ◌%◌, ◌^◌, ◌<◌, ◌≡◌, true, arith}
use wukong_am.Riscv.Vme.{is_valid, Vm}
use wukong_am.Riscv.Vme.Entry.{is_leaf, link}

-- The first `limit` pages of the allocator are different physical pages.
pub record IsAllocator (pages : ℕ → ℕ) (limit : ℕ) : Type 0 where
  pub aligned : (k : ℕ) → k < limit → pages k % 4096 ≡ 0
  pub bounded : (k : ℕ) → k < limit → pages k < 2 ^ 56
  pub distinct : (j k : ℕ) → j < limit → k < limit → pages j ≡ pages k → j ≡ k

-- What a page is for: the level of its table, and the part of an address above its indices.
pub record Tag : Type 0 where
  pub level : ℕ
  pub above : ℕ

module _ (pages : ℕ → ℕ) where
  -- The address of an entry.
  abbrev pub cell : ℕ → ℕ → ℕ
  cell j i = pages j + 8 * i

  -- The `k`-th page is the table below slot `i` of the `j`-th.
  pub record IsBelow (s : Vm) (tag : ℕ → Tag) (j i k : ℕ) : Type 0 where
    pub allocated : k < s.used
    pub linked : s.mem (cell j i) ≡ link (pages k)
    pub level : suc (tag k).level ≡ (tag j).level
    pub above : (tag k).above ≡ (tag j).above * 512 + i

  -- The valid entries of the upper levels lead to the tables below them, and those of the last level
  -- are leaves.
  pub record IsTable (s : Vm) (tag : ℕ → Tag) : Type 0 where
    pub below :
        (j i level : ℕ)
        → j < s.used
        → i < 512
        → (tag j).level ≡ suc level
        → is_valid (s.mem (cell j i)) ≡ true
        → (k : ℕ) × IsBelow s tag j i k
    pub leaves :
        (j i : ℕ)
        → j < s.used
        → i < 512
        → (tag j).level ≡ 0
        → is_valid (s.mem (cell j i)) ≡ true
        → is_leaf (s.mem (cell j i)) ≡ true

  -- Entries of different slots stand at different addresses.
  pub cell_distinct :
      (limit j k i i' : ℕ)
      → IsAllocator pages limit
      → j < limit
      → k < limit
      → i < 512
      → i' < 512
      → cell j i ≡ cell k i'
      → (j ≡ k) × (i ≡ i')
  cell_distinct limit j k i i' p hj hk hi hi' e =
      let a = p.aligned j hj in
      let b = p.aligned k hk in
      let same : pages j ≡ pages k = omega arith in (p.distinct j k hj hk same, omega arith)
