-- ===== src/Riscv/Vme/Protect.antt =====
-- `_protect` of am/src/nemu/isa/riscv/vme.c: the root of a user's space.
use wukong_am.Base.{ℕ, suc, ◌+◌, ◌*◌, ◌^◌, ◌<◌, ◌≡◌, refl, sym, ap, true, false, ◌∙◌, arith}
use wukong_am.Base.{Bool-cases, inl, inr, ◌==◌, if◌then◌else◌, leb, ltb, ◌-◌, ◌&&◌}
use wukong_am.Riscv.Vme.{vpn_i, is_valid, clear_page, Vm, new_page, AddressSpace, protect}
use wukong_am.Riscv.Vme.Entry.{is_leaf, vpn_i-lt}
use wukong_am.Riscv.Vme.Walk.{walk, walk-invalid, walk-link}
use wukong_am.Riscv.Vme.Table.{IsAllocator, Tag, cell, IsTable}
use wukong_am.Riscv.Vme.Frame.{IsOnWay, walk_frame, next_table}
use wukong_am.Riscv.Vme.Laws.{lookup, IsSpace, root_way}

module _ (pages : ℕ → ℕ) (limit : ℕ) (p : IsAllocator pages limit) where
  copied : AddressSpace → Vm → Vm
  copied kas s = (protect pages kas s).1

  copied-used : (kas : AddressSpace) (s : Vm) → (copied kas s).used ≡ s.used + 1
  unfolding copied protect new_page
  copied-used kas s = refl

  -- The new root has the entries of the old one, and the old pages stay.
  copied_root :
      (kas : AddressSpace) (s : Vm) (root i : ℕ)
      → s.used < limit
      → root < s.used
      → kas.ptr ≡ pages root
      → i < 512
      → (copied kas s).mem (cell pages s.used i) ≡ s.mem (cell pages root i)
  unfolding copied protect new_page
  copied_root kas s root i few h e hi =
      let inside : (leb (pages s.used) (cell pages s.used i)
            && ltb (cell pages s.used i) (pages s.used + 4096))
          ≡ true =
        ground arith in
      let from : kas.ptr + (cell pages s.used i - pages s.used) ≡ cell pages root i =
        omega (arith, e) in
      let a = p.aligned root (omega arith) in
      let b = p.aligned s.used few in
      let apart : pages root ≡ pages s.used → root ≡ s.used =
        λ q. p.distinct root s.used (omega arith) few q in
      let kept : clear_page s.mem (pages s.used) (cell pages root i) ≡ s.mem (cell pages root i) =
        ground (arith, apart) in
      rw inside (ap (clear_page s.mem (pages s.used)) from ∙ kept)

  copied_old :
      (kas : AddressSpace) (s : Vm) (k i : ℕ)
      → s.used < limit
      → k < s.used
      → i < 512
      → (copied kas s).mem (cell pages k i) ≡ s.mem (cell pages k i)
  unfolding copied protect new_page
  copied_old kas s k i few hk hi =
      let a = p.aligned k (omega arith) in
      let b = p.aligned s.used few in
      let apart : pages k ≡ pages s.used → k ≡ s.used =
        λ e. p.distinct k s.used (omega arith) few e in
      ground (arith, apart)

  copied_tag : Vm → (ℕ → Tag) → ℕ → ℕ → Tag
  copied_tag s tag root k = if k == s.used then tag root else tag k

  -- The page whose entries a page holds.
  copied_from : Vm → ℕ → ℕ → ℕ
  copied_from s root k = if k == s.used then root else k

  copied_entry :
      (kas : AddressSpace) (s : Vm) (tag : ℕ → Tag) (root k i : ℕ)
      → s.used < limit
      → root < s.used
      → kas.ptr ≡ pages root
      → k < (copied kas s).used
      → i < 512
      → (copied_from s root k < s.used)
        × ((copied kas s).mem (cell pages k i) ≡ s.mem (cell pages (copied_from s root k) i))
        × (copied_tag s tag root k ≡ tag (copied_from s root k))
  unfolding copied_tag copied_from
  copied_entry kas s tag root k i few h e hk hi = elim (Bool-cases (k == s.used)) [
    | inl new ↦
        let same : k ≡ s.used = ground arith in
        rw new (
          h,
          ap (λ n. (copied kas s).mem (cell pages n i)) same ∙ copied_root kas s root i few h e hi,
          refl,
        )
    | inr old ↦
        let before : k < s.used = ground (arith, copied-used kas s) in
        rw old (before, copied_old kas s k i few before hi, refl)
  ]

  copied_tag_old :
      (s : Vm) (tag : ℕ → Tag) (root k : ℕ) → k < s.used → copied_tag s tag root k ≡ tag k
  unfolding copied_tag
  copied_tag_old s tag root k h = let e : (k == s.used) ≡ false = ground arith in rw e refl

  copied_tag_new :
      (s : Vm) (tag : ℕ → Tag) (root k : ℕ) → k ≡ s.used → copied_tag s tag root k ≡ tag root
  unfolding copied_tag
  copied_tag_new s tag root k h = let e : (k == s.used) ≡ true = ground arith in rw e refl

  copied-IsTable :
      (kas : AddressSpace) (s : Vm) (tag : ℕ → Tag) (root : ℕ)
      → s.used < limit
      → root < s.used
      → kas.ptr ≡ pages root
      → IsTable pages s tag
      → IsTable pages (copied kas s) (copied_tag s tag root)
  copied-IsTable kas s tag root few h e t = record {
    below = λ k i l hk hi hl valid.
        let (from, same, tags) = copied_entry kas s tag root k i few h e hk hi in
        let (x, b) =
          t.below (copied_from s root k) i l from hi (sym (ap (λ (y : Tag). y.level) tags) ∙ hl)
            (sym (ap is_valid same) ∙ valid) in
        let there = b.allocated in
        let old = copied_tag_old s tag root x there in
        (
          x,
          record {
            allocated = omega (arith, copied-used kas s);
            linked = same ∙ b.linked;
            level =
                ap (λ (y : Tag). suc y.level) old ∙ b.level ∙ sym (ap (λ (y : Tag). y.level) tags);
            above =
                ap (λ (y : Tag). y.above) old
                ∙ b.above
                ∙ sym (ap (λ (y : Tag). y.above * 512 + i) tags);
          },
        );
    leaves = λ k i hk hi hl valid.
        let (from, same, tags) = copied_entry kas s tag root k i few h e hk hi in
        ap is_leaf same
        ∙ t.leaves (copied_from s root k) i from hi (sym (ap (λ (y : Tag). y.level) tags) ∙ hl)
            (sym (ap is_valid same) ∙ valid);
  }

  -- The walks from the old pages stay, and the walks from the new root are those from the old one.
  copied-walk :
      (kas : AddressSpace) (s : Vm) (tag : ℕ → Tag) (va k l : ℕ)
      → s.used < limit
      → IsTable pages s tag
      → IsOnWay pages limit p s tag va k l
      → walk l (pages k) va (copied kas s).mem ≡ walk l (pages k) va s.mem
  copied-walk kas s tag va k l few t way =
      walk_frame pages limit p s tag (copied kas s).mem va (omega arith) t
        (λ k' l' way'. inl (copied_old kas s k' (vpn_i va l') few way'.allocated (vpn_i-lt va l')))
        k l way

  copied_root-walk :
      (kas : AddressSpace) (s : Vm) (tag : ℕ → Tag) (va root : ℕ)
      → s.used < limit
      → kas.ptr ≡ pages root
      → IsTable pages s tag
      → IsOnWay pages limit p s tag va root 2
      → walk 2 (pages s.used) va (copied kas s).mem ≡ walk 2 (pages root) va s.mem
  copied_root-walk kas s tag va root few e t way =
      let m = (copied kas s).mem in
      let same = copied_root kas s root (vpn_i va 2) few way.allocated e (vpn_i-lt va 2) in
      elim (Bool-cases (is_valid (s.mem (cell pages root (vpn_i va 2))))) [
        | inl valid ↦
            let (next, linked, way') =
              next_table pages limit p s tag va root 1 (omega arith) t way valid in
            let there = way'.allocated in
            let a = p.aligned next (omega arith) in
            let b = p.bounded next (omega arith) in
            walk-link 1 (pages s.used) va (pages next) m (same ∙ linked) a b
            ∙ copied-walk kas s tag va next 1 few t way'
            ∙ sym (walk-link 1 (pages root) va (pages next) s.mem linked a b)
        | inr invalid ↦
            walk-invalid 2 (pages s.used) va m (ap is_valid same ∙ invalid)
            ∙ sym (walk-invalid 2 (pages root) va s.mem invalid)
      ]

  -- `protect` of a well-formed kernel space, with a page left, gives a well-formed space, keeps the
  -- kernel's well-formed, and the walk of every address below 2 ^ 39 finds in both spaces what it found
  -- in the kernel's.
  pub protect_lem :
      (kas : AddressSpace) (s : Vm)
      → IsSpace pages s kas
      → s.used < limit
      → IsSpace pages (protect pages kas s).1 (protect pages kas s).0
        × IsSpace pages (protect pages kas s).1 kas
        × ((va : ℕ)
            → va < 2 ^ 39
            → (lookup (protect pages kas s).1 (protect pages kas s).0 va ≡ lookup s kas va)
              × (lookup (protect pages kas s).1 kas va ≡ lookup s kas va))
  unfolding copied protect new_page
  protect_lem kas s h few =
      let t = copied-IsTable kas s h.tag h.root few h.allocated h.starts h.table in
      let there = h.allocated in
      let new = copied_tag_new s h.tag h.root s.used refl in
      let old = copied_tag_old s h.tag h.root h.root there in
      (
        record {
          tag = copied_tag s h.tag h.root;
          root = s.used;
          allocated = omega arith;
          starts = refl;
          level = ap (λ (y : Tag). y.level) new ∙ h.level;
          above = ap (λ (y : Tag). y.above) new ∙ h.above;
          table = t;
        },
        record {
          tag = copied_tag s h.tag h.root;
          root = h.root;
          allocated = omega arith;
          starts = h.starts;
          level = ap (λ (y : Tag). y.level) old ∙ h.level;
          above = ap (λ (y : Tag). y.above) old ∙ h.above;
          table = t;
        },
        λ va small.
            let way = root_way pages limit p s kas h va small in
            let to = ap (λ q. walk 2 q va s.mem) (sym h.starts) in
            (
              copied_root-walk kas s h.tag va h.root few h.starts h.table way ∙ to,
              ap (λ q. walk 2 q va (copied kas s).mem) h.starts
                  ∙ copied-walk kas s h.tag va h.root 2 few h.table way
                  ∙ to,
            ),
      )
