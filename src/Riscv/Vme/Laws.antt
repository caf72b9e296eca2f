-- ===== src/Riscv/Vme/Laws.antt =====
-- `_map` and `_protect` of am/src/nemu/isa/riscv/vme.c against address spaces as functions.
use wukong_am.Base.{ℕ, ◌+◌, ◌/◌, ◌%◌, ◌^◌, ◌<◌, ◌≤◌, ◌≡◌, ap, true, ◌∙◌, arith}
use wukong_am.Base.{Option, some, Bool-cases, inl, inr, ◌==◌, if◌then◌else◌}
use wukong_am.Riscv.Vme.{Vm, map_level, map, AddressSpace}
use wukong_am.Riscv.Vme.Entry.{is_leaf, entry, entry_lem}
use wukong_am.Riscv.Vme.Walk.{walk, or_else}
use wukong_am.Riscv.Vme.Table.{IsAllocator, Tag, IsTable}
use wukong_am.Riscv.Vme.Frame.{IsOnWay}
use wukong_am.Riscv.Vme.Descent.{map_level-IsMapped}

-- The abstract address space: the leaf entry and its level for an address, where it is mapped.
abbrev pub lookup : Vm → AddressSpace → ℕ → Option (ℕ × ℕ)
lookup s space va = walk 2 space.ptr va s.mem

-- A page that was not mapped is mapped to the leaf `e`.
abbrev pub add_page : (ℕ → Option (ℕ × ℕ)) → ℕ → ℕ → ℕ → Option (ℕ × ℕ)
add_page f va e va' = if va' / 4096 == va / 4096 then or_else (f va') (e, 0) else f va'

module _ (pages : ℕ → ℕ) where
  -- The root of the space is the page `root`, of a table of level 2, and the tables are well-formed.
  pub record IsSpace (s : Vm) (space : AddressSpace) : Type 0 where
    pub tag : ℕ → Tag
    pub root : ℕ
    pub allocated : root < s.used
    pub starts : space.ptr ≡ pages root
    pub level : (tag root).level ≡ 2
    pub above : (tag root).above ≡ 0
    pub table : IsTable pages s tag

  -- Below 2 ^ 39 the root is on the way to each address.
  pub root_way :
      (limit : ℕ) (p : IsAllocator pages limit) (s : Vm) (space : AddressSpace)
      (h : IsSpace s space) (va : ℕ)
      → va < 2 ^ 39
      → IsOnWay pages limit p s h.tag va h.root 2
  root_way limit p s space h va small = record {
    allocated = h.allocated;
    level = h.level;
    above = h.above ∙ omega arith;
  }

  map-some :
      (space : AddressSpace) (va pa prot : ℕ) (s : Vm)
      → va % 4096 ≡ 0
      → pa % 4096 ≡ 0
      → map pages space va pa prot s ≡ some (map_level pages 2 space.ptr va pa prot s)
  unfolding map
  map-some space va pa prot s a b = ground arith

  -- `map` refines `add_page`: on a well-formed space with two pages left, for page-aligned addresses
  -- below 2 ^ 39 and 2 ^ 56 and flags below 1024 of a leaf, it succeeds, keeps the space well-formed,
  -- takes two pages at most, and the walk of every address below 2 ^ 39 finds the leaf of the new page
  -- if the address lies in the page and was not mapped, and what it found before otherwise.
  pub map_lem :
      (limit : ℕ) (space : AddressSpace) (va pa prot : ℕ) (s : Vm)
      → IsAllocator pages limit
      → IsSpace s space
      → s.used + 2 ≤ limit
      → va % 4096 ≡ 0
      → va < 2 ^ 39
      → pa % 4096 ≡ 0
      → pa < 2 ^ 56
      → prot < 1024
      → is_leaf prot ≡ true
      → (t : Vm) × (map pages space va pa prot s ≡ some t)
        × IsSpace t space
        × (t.used ≤ s.used + 2)
        × ((va' : ℕ)
            → va' < 2 ^ 39
            → lookup t space va' ≡ add_page (lookup s space) va (entry pa prot) va')
  map_lem limit space va pa prot s p h few a v b k f leaf =
      let t = map_level pages 2 (pages h.root) va pa prot s in
      let e = entry_lem pa prot b k f leaf in
      let (tag', m) =
        map_level-IsMapped pages limit p 2 h.root va pa prot s h.tag few h.table
          (root_way limit p s space h va v) e.0 e.1 in
      let there = h.allocated in
      let more = m.grows in
      let same = m.tags h.root there in
      (
        t,
        map-some space va pa prot s a b
            ∙ ap (λ q. some (map_level pages 2 q va pa prot s)) h.starts,
        record {
          tag = tag';
          root = h.root;
          allocated = (omega arith);
          starts = h.starts;
          level = ap (λ (x : Tag). x.level) same ∙ h.level;
          above = ap (λ (x : Tag). x.above) same ∙ h.above;
          table = m.table;
        },
        m.few,
        λ va' small. rw h.starts (elim (Bool-cases (va' / 4096 == va / 4096)) [
          | inl page ↦ rw page (m.own va' (ground arith))
          | inr other ↦ rw other (
              m.others va' h.root 2 (λ q. absurd (ground arith))
                (root_way limit p s space h va' small))
        ]),
      )
