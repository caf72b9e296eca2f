-- ===== src/Riscv/Vme/Segments.antt =====
-- The loops of `_vme_init` in am/src/nemu/isa/riscv/vme.c over the segments and their pages.
use wukong_am.Base.{
  ℕ, zero, suc, ◌+◌, ◌*◌, ◌/◌, ◌%◌, ◌^◌, ◌<◌, ◌≤◌, ◌≡◌, refl, ap, true, false, ◌∙◌, arith,
}
use wukong_am.Base.{
  Option, none, some, Bool-cases, inl, inr, ◌==◌, if◌then◌else◌, Bool, leb, ltb, ◌-◌, ◌&&◌, ◌||◌,
  List, [], ◌∷◌,
}
use wukong_am.Riscv.Vme.{Vm, map, map_pages, map_segments, AddressSpace, kernel_flags}
use wukong_am.Riscv.Vme.Entry.{entry}
use wukong_am.Riscv.Vme.Walk.{or_else}
use wukong_am.Riscv.Vme.Table.{IsAllocator}
use wukong_am.Riscv.Vme.Laws.{lookup, IsSpace, map_lem}

-- The leaf of the kernel's mapping of an address to itself.
abbrev pub same_page : ℕ → ℕ
same_page va = entry (va / 4096 * 4096) kernel_flags

-- What is mapped stays; the rest of an area is mapped to the leaf `e`.
abbrev pub overlay : Bool → Option (ℕ × ℕ) → ℕ → Option (ℕ × ℕ)
overlay area o e = if area then or_else o (e, 0) else o

overlay_twice :
    (a b : Bool) (o : Option (ℕ × ℕ)) (e : ℕ) → overlay b (overlay a o e) e ≡ overlay (a || b) o e
overlay_twice true true none e = refl
overlay_twice true true (some d) e = refl
overlay_twice true false o e = refl
overlay_twice false true o e = refl
overlay_twice false false o e = refl

-- Segments with page-aligned starts, of 39-bit addresses.
unfoldable pub is_segments : List (ℕ × ℕ) → Bool
is_segments [] = true
is_segments ((start, end) ∷ rest) =
    (start % 4096 == 0) && leb start end && leb end (2 ^ 39 - 4096) && is_segments rest

-- An address in a page of a segment.
pub in_segments : List (ℕ × ℕ) → ℕ → Bool
in_segments [] va = false
in_segments ((start, end) ∷ rest) va =
    (leb start va && ltb (va / 4096 * 4096) end) || in_segments rest va

-- The pages of the segments.
unfoldable pub count_pages : List (ℕ × ℕ) → ℕ
count_pages [] = 0
count_pages ((start, end) ∷ rest) = (end - start + 4096 - 1) / 4096 + count_pages rest

module _ (pages : ℕ → ℕ) (limit : ℕ) (p : IsAllocator pages limit) where
  -- The space after some mappings of addresses to themselves: the addresses of `area` are mapped.
  pub record IsMappedArea (space : AddressSpace) (s t : Vm) (count : ℕ) (area : ℕ → Bool)
      : Type 0 where
    pub space_after : IsSpace pages t space
    pub few : t.used ≤ s.used + 2 * count
    pub view :
        (va : ℕ)
        → va < 2 ^ 39
        → lookup t space va ≡ overlay (area va) (lookup s space va) (same_page va)

  -- One mapping after another.
  joined :
      (space : AddressSpace) (s t u : Vm) (m n total : ℕ) (area area' area'' : ℕ → Bool)
      → IsMappedArea space s t m area
      → IsMappedArea space t u n area'
      → ((va : ℕ) → (area va || area' va) ≡ area'' va)
      → m + n ≡ total
      → IsMappedArea space s u total area''
  joined space s t u m n total area area' area'' a b both sum = record {
    space_after = b.space_after;
    few = (let x = a.few in let y = b.few in omega arith);
    view = λ va h.
        b.view va h
        ∙ ap (λ o. overlay (area' va) o (same_page va)) (a.view va h)
        ∙ overlay_twice (area va) (area' va) (lookup s space va) (same_page va)
        ∙ ap (λ c. overlay c (lookup s space va) (same_page va)) (both va);
  }

  one_page :
      (space : AddressSpace) (s : Vm) (va : ℕ)
      → IsSpace pages s space
      → s.used + 2 ≤ limit
      → va % 4096 ≡ 0
      → va < 2 ^ 39
      → (t : Vm) × (map pages space va va kernel_flags s ≡ some t)
        × IsMappedArea space s t 1 (λ va'. va' / 4096 == va / 4096)
  one_page space s va h few a small =
      let (t, runs, after, used, view) =
        map_lem pages limit space va va kernel_flags s p h few a small a (omega arith) (omega arith)
          refl in
      (
        t,
        runs,
        record {
          space_after = after;
          few = (omega arith);
          view = λ va' k. view va' k ∙ elim (Bool-cases (va' / 4096 == va / 4096)) [
            | inl page ↦
                let e : va ≡ va' / 4096 * 4096 = ground arith in
                rw page (ap (λ c. or_else (lookup s space va') (entry c kernel_flags, 0)) e)
            | inr other ↦ rw other refl
          ];
        },
      )

  map_pages_step :
      (count : ℕ) (space : AddressSpace) (va : ℕ) (s t : Vm)
      → map pages space va va kernel_flags s ≡ some t
      → map_pages pages (suc count) space va s ≡ map_pages pages count space (va + 4096) t
  unfolding map_pages
  map_pages_step count space va s t runs =
      ap
        (λ (o : Option Vm). elim o as (λ x. Option Vm) [
          | none ↦ none
          | some u ↦ map_pages pages count space (va + 4096) u
        ])
        runs

  map_pages-IsMappedArea :
      (count : ℕ) (space : AddressSpace) (va : ℕ) (s : Vm)
      → IsSpace pages s space
      → s.used + 2 * count ≤ limit
      → va % 4096 ≡ 0
      → va + count * 4096 ≤ 2 ^ 39
      → (t : Vm) × (map_pages pages count space va s ≡ some t)
        × IsMappedArea space s t count (λ va'. leb va va' && ltb va' (va + count * 4096))
  unfolding map_pages
  map_pages-IsMappedArea zero space va s h few a small = (
    s,
    refl,
    record {
      space_after = h;
      few = (omega arith);
      view = λ va' k.
          let empty : (leb va va' && ltb va' (va + 0 * 4096)) ≡ false = ground arith in
          rw empty refl;
    },
  )
  map_pages-IsMappedArea (suc count) space va s h few a small =
      let (t, runs, first) = one_page space s va h (omega arith) a (omega arith) in
      let used = first.few in
      let (u, runs', others) =
        map_pages-IsMappedArea count space (va + 4096) t first.space_after (omega arith)
          (omega arith) (omega arith) in
      (
        u,
        map_pages_step count space va s t runs ∙ runs',
        joined space s t u 1 count (suc count) (λ va'. va' / 4096 == va / 4096)
            (λ va'. leb (va + 4096) va' && ltb va' (va + 4096 + count * 4096))
            (λ va'. leb va va' && ltb va' (va + suc count * 4096)) first others
            (λ va'. ground arith) (omega arith),
      )

  map_segments_step :
      (start end : ℕ) (rest : List (ℕ × ℕ)) (space : AddressSpace) (s t : Vm)
      → map_pages pages ((end - start + 4096 - 1) / 4096) space start s ≡ some t
      → map_segments pages ((start, end) ∷ rest) space s ≡ map_segments pages rest space t
  unfolding map_segments
  map_segments_step start end rest space s t runs =
      ap
        (λ (o : Option Vm). elim o as (λ x. Option Vm) [
          | none ↦ none
          | some u ↦ map_segments pages rest space u
        ])
        runs

  -- The pages of a segment cover it.
  covers :
      (start end va : ℕ)
      → start % 4096 ≡ 0
      → start ≤ end
      → (leb start va && ltb va (start + (end - start + 4096 - 1) / 4096 * 4096))
        ≡ (leb start va && ltb (va / 4096 * 4096) end)
  covers start end va a h = ground arith

  pub map_segments-IsMappedArea :
      (segments : List (ℕ × ℕ)) (space : AddressSpace) (s : Vm)
      → IsSpace pages s space
      → s.used + 2 * count_pages segments ≤ limit
      → is_segments segments ≡ true
      → (t : Vm) × (map_segments pages segments space s ≡ some t)
        × IsMappedArea space s t (count_pages segments) (in_segments segments)
  unfolding map_segments count_pages is_segments in_segments
  map_segments-IsMappedArea [] space s h few ok =
      (s, refl, record { space_after = h; few = (omega arith); view = λ va' k. refl })
  map_segments-IsMappedArea ((start, end) ∷ rest) space s h few ok =
      let count = (end - start + 4096 - 1) / 4096 in
      let aligned : start % 4096 ≡ 0 = ground arith in
      let bounded : start + count * 4096 ≤ 2 ^ 39 = ground arith in
      let (t, runs, first) =
        map_pages-IsMappedArea count space start s h (omega arith) aligned bounded in
      let used = first.few in
      let (u, runs', others) =
        map_segments-IsMappedArea rest space t first.space_after (omega arith) (ground arith) in
      (
        u,
        map_segments_step start end rest space s t runs ∙ runs',
        joined space s t u count (count_pages rest) (count_pages ((start, end) ∷ rest))
            (λ va'. leb start va' && ltb va' (start + count * 4096)) (in_segments rest)
            (in_segments ((start, end) ∷ rest)) first others
            (λ va'.
              ap (λ b. b || in_segments rest va') (covers start end va' aligned (ground arith)))
            refl,
      )
