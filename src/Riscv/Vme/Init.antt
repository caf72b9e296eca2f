-- ===== src/Riscv/Vme/Init.antt =====
-- The tables that `_vme_init` of am/src/nemu/isa/riscv/vme.c builds.
use wukong_am.Base.{ℕ, ◌+◌, ◌*◌, ◌/◌, ◌%◌, ◌^◌, ◌<◌, ◌≤◌, ◌≡◌, refl, ap, true, ◌∙◌, arith}
use wukong_am.Base.{Option, none, some, Bool-cases, inl, inr, if◌then◌else◌, List}
use wukong_am.Riscv.Vme.{
  vpn_i, is_valid, Vm, map_segments, vme_init, new_page, AddressSpace, kernel_flags, pte_addr,
}
use wukong_am.Riscv.Vme.Entry.{entry_lem, vpn_i-lt}
use wukong_am.Riscv.Vme.Walk.{walk-invalid}
use wukong_am.Riscv.Vme.Table.{IsAllocator, cell}
use wukong_am.Riscv.Vme.Laws.{lookup, IsSpace}
use wukong_am.Riscv.Vme.Segments.{
  same_page, overlay, is_segments, in_segments, count_pages, map_segments-IsMappedArea,
}

-- The physical address: that of the leaf, with the bits below its level.
abbrev pub physical : ℕ → Option (ℕ × ℕ) → Option ℕ
physical va none = none
physical va (some (e, level)) = some (pte_addr e + va % 2 ^ (12 + 9 * level))

abbrev pub translate : Vm → AddressSpace → ℕ → Option ℕ
translate s space va = physical va (lookup s space va)

module _ (pages : ℕ → ℕ) (limit : ℕ) (p : IsAllocator pages limit) where
  root_zeros :
      (s : Vm) (j i : ℕ)
      → s.used ≡ 0
      → j < s.used + 1
      → i < 512
      → (new_page pages s).1.mem (cell pages j i) ≡ 0
  unfolding new_page
  root_zeros s j i e hj hi =
      let same : j ≡ s.used = omega arith in let page = ap pages same in ground (arith, page)

  -- The first page, as a root.
  pub first_root :
      (s : Vm)
      → s.used ≡ 0
      → 0 < limit
      → IsSpace pages (new_page pages s).1 (record { ptr = pages s.used })
        × ((va : ℕ) → lookup (new_page pages s).1 (record { ptr = pages s.used }) va ≡ none)
  unfolding new_page
  first_root s e few =
      let zeros : (j i : ℕ)
          → j < s.used + 1
          → i < 512
          → (new_page pages s).1.mem (cell pages j i) ≡ 0 =
        λ j i hj hi. root_zeros s j i e hj hi in
      (
        record {
          tag = λ k. record { level = 2; above = 0 };
          root = s.used;
          allocated = (omega arith);
          starts = refl;
          level = refl;
          above = refl;
          table = record {
            below = λ j i l hj hi hl valid. absurd (ground (arith, zeros j i hj hi));
            leaves = λ j i hj hi hl valid. absurd (ground (arith, zeros j i hj hi));
          };
        },
        λ va.
            walk-invalid 2 (pages s.used) va (new_page pages s).1.mem
              (ap is_valid (zeros s.used (vpn_i va 2) (omega arith) (vpn_i-lt va 2))),
      )

  new_page-used : (s : Vm) → (new_page pages s).1.used ≡ s.used + 1
  unfolding new_page
  new_page-used s = refl

  vme_init_step :
      (segments : List (ℕ × ℕ)) (s t : Vm)
      → map_segments pages segments (record { ptr = pages s.used }) (new_page pages s).1 ≡ some t
      → vme_init pages segments s ≡ some (record { ptr = pages s.used }, t)
  unfolding vme_init new_page
  vme_init_step segments s t runs =
      ap
        (λ (o : Option Vm). elim o as (λ x. Option (AddressSpace × Vm)) [
          | none ↦ none
          | some u ↦ some (record { ptr = pages s.used }, u)
        ])
        runs

  -- With a page for the root and two for each mapped page left, `vme_init` succeeds from no page used,
  -- for segments with page-aligned starts and with ends up to 2 ^ 39 - 4096 that are not before the
  -- starts: the space is well-formed, and below 2 ^ 39 it maps just the pages of the segments, each to
  -- itself with the flags of the kernel.
  pub vme_init_lem :
      (segments : List (ℕ × ℕ)) (s : Vm)
      → s.used ≡ 0
      → 1 + 2 * count_pages segments ≤ limit
      → is_segments segments ≡ true
      → (kas : AddressSpace) × (t : Vm) × (vme_init pages segments s ≡ some (kas, t))
        × IsSpace pages t kas
        × ((va : ℕ)
            → va < 2 ^ 39
            → lookup t kas va ≡ (if in_segments segments va then some (same_page va, 0) else none))
  vme_init_lem segments s e few ok =
      let kas : AddressSpace = record { ptr = pages s.used } in
      let (h, empty) = first_root s e (omega arith) in
      let (t, runs, m) =
        map_segments-IsMappedArea pages limit p segments kas (new_page pages s).1 h
          (omega (arith, new_page-used s)) ok in
      (
        kas,
        t,
        vme_init_step segments s t runs,
        m.space_after,
        λ va small.
            m.view va small
            ∙ ap (λ o. overlay (in_segments segments va) o (same_page va)) (empty va),
      )

  -- In the space that `vme_init` builds from no page used, with a page for the root and two for each
  -- mapped page left, for segments with page-aligned starts and with ends up to 2 ^ 39 - 4096 that are
  -- not before the starts, every address below 2 ^ 39 in a page of the segments is translated to
  -- itself, and every other one is not mapped.
  pub translate-vme_init :
      (segments : List (ℕ × ℕ)) (s : Vm)
      → s.used ≡ 0
      → 1 + 2 * count_pages segments ≤ limit
      → is_segments segments ≡ true
      → (kas : AddressSpace) × (t : Vm) × (vme_init pages segments s ≡ some (kas, t))
        × ((va : ℕ)
            → va < 2 ^ 39
            → translate t kas va ≡ (if in_segments segments va then some va else none))
  translate-vme_init segments s e few ok =
      let (kas, t, runs, h, view) = vme_init_lem segments s e few ok in
      (
        kas,
        t,
        runs,
        λ va small. ap (physical va) (view va small) ∙ elim (Bool-cases (in_segments segments va)) [
          | inl inside ↦
              let to =
                (entry_lem (va / 4096 * 4096) kernel_flags (omega arith) (omega arith) (omega arith)
                  refl).2 in
              rw inside (ap some (omega (arith, to)))
          | inr outside ↦ rw outside refl
        ],
      )
