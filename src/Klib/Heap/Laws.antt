-- ===== src/Klib/Heap/Laws.antt =====
-- The blocks that the allocator returns.
use wukong_am.Base.{ℕ, ◌+◌, ◌-◌, ◌*◌, ◌/◌, ◌^◌, ◌≤◌, ◌<◌, ◌≡◌, refl, ap, sym, ◌∙◌, arith}
use wukong_am.Base.{none, some, false, if◌then◌else◌, bit_and, leb, ◌==◌, Bool-cases, inl, inr}
use wukong_am.Base.{u64}
use wukong_am.Base.Bits.{bit_and_digit, bit_and_mask}
use wukong_am.Klib.Heap.{Last, Area, round_up, malloc, free}

clear_low : (x : ℕ) → x < 2 ^ 64 → bit_and x (2 ^ 64 - 8) ≡ x / 8 * 8
clear_low x h = omega (
  arith,
  bit_and_digit x (2 ^ 64 - 8),
  bit_and_digit (x / 2) (2 ^ 63 - 4),
  bit_and_digit (x / 2 / 2) (2 ^ 62 - 2),
  bit_and_mask 61 (x / 2 / 2 / 2),
)

-- Sizes are rounded up to the next multiple of 8.
pub round_up_lem : (n : ℕ) → n < 2 ^ 63 → round_up n ≡ (n + 7) / 8 * 8
unfolding round_up
round_up_lem n h =
    let small : u64 (n + 8 - 1) ≡ n + 7 = omega arith in rw small (clear_low (n + 7) (omega arith))

-- The last block lies in the heap, or there is none yet.
pub record IsLast (heap : Area) (last : Last) : Type 0 where
  pub start : heap.start ≤ (if last.ptr == 0 then heap.start else last.ptr)
  pub end : (if last.ptr == 0 then heap.start else last.ptr) + last.size < heap.end

-- Where the next block starts.
abbrev pub next_ptr : Area → Last → ℕ
next_ptr heap last = (if last.ptr == 0 then heap.start else last.ptr) + last.size

-- `malloc` without the wrap of its sums, in the lower half of the address space.
pub malloc_parts :
    (heap : Area) (last : Last) (n : ℕ)
    → next_ptr heap last < 2 ^ 63
    → n < 2 ^ 62
    → (let ptr = next_ptr heap last in
        let size = (n + 7) / 8 * 8 in
        malloc heap last n ≡ (
          if leb heap.end (ptr + size)
          then (none, record { ptr = ptr; size = last.size })
          else (some ptr, record { ptr = ptr; size = size })))
unfolding malloc
malloc_parts heap last n low fits =
    let rounded = round_up_lem n (omega arith) in
    let ptr : u64 (next_ptr heap last) ≡ next_ptr heap last = omega (arith, low) in
    let top : u64 (next_ptr heap last + (n + 7) / 8 * 8) ≡ next_ptr heap last + (n + 7) / 8 * 8 =
      omega (arith, low) in
    rw (rounded, ptr, top) refl

malloc-some :
    (heap : Area) (last : Last) (n p : ℕ)
    → IsLast heap last
    → heap.end < 2 ^ 63
    → n < 2 ^ 62
    → (malloc heap last n).0 ≡ some p
    → (p ≡ next_ptr heap last)
      × (p + (n + 7) / 8 * 8 < heap.end)
      × ((malloc heap last n).1 ≡ record { ptr = p; size = (n + 7) / 8 * 8 })
malloc-some heap last n p valid small fits ok =
    let parts = malloc_parts heap last n (omega (arith, valid.end)) fits in
    elim (Bool-cases (leb heap.end (next_ptr heap last + (n + 7) / 8 * 8))) [
      | inl full ↦
          let e : none ≡ some p = sym (ap (λ r. r.0) (rw full at parts)) ∙ ok in absurd (cc)
      | inr room ↦
          let e : some (next_ptr heap last) ≡ some p =
            sym (ap (λ r. r.0) (rw room at parts)) ∙ ok in
          let same : p ≡ next_ptr heap last = cc in
          (
            same,
            ground arith,
            ap (λ r. r.1) (rw room at parts)
                ∙ ap (λ q. record { ptr = q; size = (n + 7) / 8 * 8 }) (sym same),
          )
    ]

-- A block that `malloc` returns is the last one then, and lies in the heap.
some-IsLast :
    (heap : Area) (last : Last) (n p : ℕ)
    → IsLast heap last
    → 0 < heap.start
    → heap.end < 2 ^ 63
    → n < 2 ^ 62
    → (malloc heap last n).0 ≡ some p
    → (heap.start ≤ p) × (1 ≤ p) × IsLast heap (malloc heap last n).1
some-IsLast heap last n p valid pos small fits ok =
    let block = malloc-some heap last n p valid small fits ok in
    let low : heap.start ≤ p = omega (arith, block.0, valid.start) in
    let there : (p == 0) ≡ false = ground arith in
    (low, omega arith, rw (block.2) (record { start = rw there low; end = rw there block.1 }))

-- In a heap that does not start at 0 and ends in the lower half of the address space, with a last
-- block that lies in the heap: when `malloc` has returned a block of less than 2 ^ 62 bytes and
-- `free` has released it, the next `malloc` of that size returns the same address.
pub malloc-free :
    (heap : Area) (last : Last) (n p : ℕ)
    → IsLast heap last
    → 0 < heap.start
    → heap.end < 2 ^ 63
    → n < 2 ^ 62
    → (malloc heap last n).0 ≡ some p
    → (malloc heap (free (malloc heap last n).1 p) n).0 ≡ some p
malloc-free heap last n p valid pos small fits ok =
    let block = malloc-some heap last n p valid small fits ok in
    let state = some-IsLast heap last n p valid pos small fits ok in
    let there : (p == 0) ≡ false = ground (arith, state.1) in
    let empty : Last = record { ptr = p; size = 0 } in
    let freed : free (malloc heap last n).1 p ≡ empty =
      ap (λ l. free l p) block.2 ∙ unfold free in ground arith in
    let valid2 : IsLast heap empty = record {
      start = rw there (state.0);
      end = rw there (omega (arith, block.1));
    } in
    let here : next_ptr heap empty ≡ p = rw there (omega arith) in
    let room : leb heap.end (next_ptr heap empty + (n + 7) / 8 * 8) ≡ false =
      ground (arith, here, block.1) in
    ap (λ l. (malloc heap l n).0) freed
    ∙ ap (λ r. r.0) (rw room at (malloc_parts heap empty n (omega (arith, valid2.end)) fits))
    ∙ ap some here
