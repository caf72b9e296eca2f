-- ===== src/Klib/Heap/Blocks.antt =====
-- The blocks that are in use while a program allocates and releases, newest first.
use native.Mathlib.Nat.{mul-suc}
use mathlib.Core.Path.{subst}
use wukong_am.Base.{ℕ, suc, ◌+◌, ◌*◌, ◌/◌, ◌^◌, ◌≤◌, ◌<◌, ◌≡◌, ◌⊎◌, refl, sym, arith}
use wukong_am.Base.{
  Option, none, some, List, [], ◌∷◌, true, false, if◌then◌else◌, ltb, leb, ◌==◌, ◌&&◌, Bool-cases,
  inl, inr, Bool,
}
use wukong_am.Klib.Heap.{Last, Area, malloc, free}
use wukong_am.Klib.Heap.Laws.{next_ptr, malloc_parts}

-- A block: its address and the size that was asked for.
pub record Block : Type 0 where
  pub ptr : ℕ
  pub size : ℕ

pub data Call : Type 0 where
  allocate release : ℕ → Call

-- The allocator and the blocks in use.
pub record Usage : Type 0 where
  pub last : Last
  pub live : List Block

pub add_block : Option ℕ → ℕ → List Block → List Block
add_block none n live = live
add_block (some p) n live = record { ptr = p; size = n } ∷ live

pub remove_block : ℕ → List Block → List Block
remove_block q [] = []
remove_block q (b ∷ bs) = let rest = remove_block q bs in if b.ptr == q then rest else b ∷ rest

pub call : Area → Call → Usage → Usage
call heap (allocate n) s =
    let (r, last) = malloc heap s.last n in record { last = last; live = add_block r n s.live }
call heap (release q) s = record { last = free s.last q; live = remove_block q s.live }

pub calls : Area → List Call → Usage → Usage
calls heap [] s = s
calls heap (c ∷ cs) s = calls heap cs (call heap c s)

unfoldable pub count_calls : List Call → ℕ
count_calls [] = 0
count_calls (c ∷ cs) = suc (count_calls cs)

-- Every size that is asked for is positive and below 2 ^ 62.
unfoldable pub is_moderate : List Call → Bool
is_moderate [] = true
is_moderate (allocate n ∷ cs) = ltb 0 n && ltb n (2 ^ 62) && is_moderate cs
is_moderate (release q ∷ cs) = is_moderate cs

-- All blocks end at `q` or before.
pub AllBelow : ℕ → List Block → Type 0
AllBelow q [] = Unit
AllBelow q (b ∷ bs) = (b.ptr + b.size ≤ q) × AllBelow q bs

-- Every block lies in the heap and behind the older ones.
pub IsLayout : Area → List Block → Type 0
IsLayout heap [] = Unit
IsLayout heap (b ∷ bs) =
    (heap.start ≤ b.ptr) × (b.ptr + b.size < heap.end) × AllBelow b.ptr bs × IsLayout heap bs

-- All blocks but one at `q` end at `q` or before.
AllButAt : ℕ → List Block → Type 0
AllButAt q [] = Unit
AllButAt q (b ∷ bs) = ((b.ptr ≡ q) ⊎ (b.ptr + b.size ≤ q)) × AllButAt q bs

AllBelow-more : (q r : ℕ) (bs : List Block) → q ≤ r → AllBelow q bs → AllBelow r bs
unfolding AllBelow
AllBelow-more q r [] h k = tt
AllBelow-more q r (b ∷ bs) h (k, ks) = (omega (arith, h, k), AllBelow-more q r bs h ks)

AllBelow-AllButAt : (q : ℕ) (bs : List Block) → AllBelow q bs → AllButAt q bs
unfolding AllBelow AllButAt
AllBelow-AllButAt q [] h = tt
AllBelow-AllButAt q (b ∷ bs) (h, hs) = (inr h, AllBelow-AllButAt q bs hs)

remove_block-AllBelow : (q r : ℕ) (bs : List Block) → AllBelow r bs → AllBelow r (remove_block q bs)
unfolding AllBelow remove_block
remove_block-AllBelow q r [] h = tt
remove_block-AllBelow q r (b ∷ bs) (h, hs) = elim (Bool-cases (b.ptr == q)) [
  | inl gone ↦ rw gone (remove_block-AllBelow q r bs hs)
  | inr stays ↦ rw stays (h, remove_block-AllBelow q r bs hs)
]

remove_block-AllButAt : (q r : ℕ) (bs : List Block) → AllButAt r bs → AllButAt r (remove_block q bs)
unfolding AllButAt remove_block
remove_block-AllButAt q r [] h = tt
remove_block-AllButAt q r (b ∷ bs) (h, hs) = elim (Bool-cases (b.ptr == q)) [
  | inl gone ↦ rw gone (remove_block-AllButAt q r bs hs)
  | inr stays ↦ rw stays (h, remove_block-AllButAt q r bs hs)
]

-- Without the block at `q` the others are below.
remove_block-last : (q : ℕ) (bs : List Block) → AllButAt q bs → AllBelow q (remove_block q bs)
unfolding AllBelow AllButAt remove_block
remove_block-last q [] h = tt
remove_block-last q (b ∷ bs) (h, hs) = elim (Bool-cases (b.ptr == q)) [
  | inl gone ↦ rw gone (remove_block-last q bs hs)
  | inr stays ↦
      let below : b.ptr + b.size ≤ q = elim h [
        | inl at ↦ absurd (ground (arith, at, stays))
        | inr k ↦ k
      ] in
      rw stays (below, remove_block-last q bs hs)
]

remove_block-IsLayout :
    (heap : Area) (q : ℕ) (bs : List Block) → IsLayout heap bs → IsLayout heap (remove_block q bs)
unfolding IsLayout remove_block
remove_block-IsLayout heap q [] h = tt
remove_block-IsLayout heap q (b ∷ bs) (low, high, below, rest) = elim (Bool-cases (b.ptr == q)) [
  | inl gone ↦ rw gone (remove_block-IsLayout heap q bs rest)
  | inr stays ↦
      rw stays
        (low, high, remove_block-AllBelow q b.ptr bs below, remove_block-IsLayout heap q bs rest)
]

-- What holds between the calls: the blocks in use, and the address behind the last block, at most `m`.
record Fits (heap : Area) (m : ℕ) (s : Usage) : Type 0 where
  layout : IsLayout heap s.live
  below : AllBelow (next_ptr heap s.last) s.live
  others : AllButAt s.last.ptr s.live
  low : heap.start ≤ (if s.last.ptr == 0 then heap.start else s.last.ptr)
  high : next_ptr heap s.last ≤ m
  size : s.last.size < heap.end

failed-Fits :
    (heap : Area) (m : ℕ) (s : Usage)
    → 0 < heap.start
    → Fits heap m s
    → Fits heap
        (m + heap.end)
        (record { last = record { ptr = next_ptr heap s.last; size = s.last.size }; live = s.live })
failed-Fits heap m s pos fits =
    let next = next_ptr heap s.last in
    let there : (next == 0) ≡ false = ground (arith, pos, fits.low) in
    record {
      layout = fits.layout;
      below = rw there (AllBelow-more next (next + s.last.size) s.live (omega arith) fits.below);
      others = AllBelow-AllButAt next s.live fits.below;
      low = rw there (omega (arith, fits.low));
      high = rw there (omega (arith, fits.high, fits.size));
      size = fits.size;
    }

allocated-Fits :
    (heap : Area) (m n r : ℕ) (s : Usage)
    → 0 < heap.start
    → Fits heap m s
    → n ≤ r
    → next_ptr heap s.last + r < heap.end
    → Fits heap (m + heap.end) (record {
      last = record { ptr = next_ptr heap s.last; size = r };
      live = record { ptr = next_ptr heap s.last; size = n } ∷ s.live;
    })
unfolding IsLayout AllBelow AllButAt
allocated-Fits heap m n r s pos fits covers room =
    let next = next_ptr heap s.last in
    let there : (next == 0) ≡ false = ground (arith, pos, fits.low) in
    let last : Last = record { ptr = next; size = r } in
    let behind : next_ptr heap last ≡ next + r = rw there refl in
    record {
      layout = (omega (arith, fits.low), omega arith, fits.below, fits.layout);
      below = (
        rw behind (omega arith),
        subst (λ q. AllBelow q s.live) (sym behind)
            (AllBelow-more next (next + r) s.live (omega arith) fits.below),
      );
      others = (inl refl, AllBelow-AllButAt next s.live fits.below);
      low = rw there (omega (arith, fits.low));
      high = rw there (omega arith);
      size = omega arith;
    }

allocate-Fits :
    (heap : Area) (m n : ℕ) (s : Usage)
    → 0 < heap.start
    → m < 2 ^ 63
    → n < 2 ^ 62
    → Fits heap m s
    → Fits heap (m + heap.end) (call heap (allocate n) s)
unfolding call add_block
allocate-Fits heap m n s pos low small fits =
    let parts = malloc_parts heap s.last n (omega (arith, fits.high)) small in
    let next = next_ptr heap s.last in
    let r = (n + 7) / 8 * 8 in
    elim (Bool-cases (leb heap.end (next + r))) [
      | inl full ↦ rw parts (rw full (failed-Fits heap m s pos fits))
      | inr room ↦
          rw parts (rw room (allocated-Fits heap m n r s pos fits (omega arith) (ground arith)))
    ]

release-Fits :
    (heap : Area) (m q : ℕ) (s : Usage)
    → Fits heap m s
    → Fits heap (m + heap.end) (call heap (release q) s)
unfolding call free
release-Fits heap m q s fits = elim (Bool-cases (q == s.last.ptr)) [
  | inl last ↦
      let same : q ≡ s.last.ptr = ground arith in
      let first = if s.last.ptr == 0 then heap.start else s.last.ptr in
      let rest =
        remove_block-last q s.live (subst (λ x. AllButAt x s.live) (sym same) fits.others) in
      let under : AllBelow (first + 0) (remove_block q s.live) =
        AllBelow-more q (first + 0) (remove_block q s.live) (ground arith) rest in
      rw last (record {
        layout = remove_block-IsLayout heap q s.live fits.layout;
        below = under;
        others =
            subst (λ x. AllButAt x (remove_block q s.live)) same
              (AllBelow-AllButAt q (remove_block q s.live) rest);
        low = fits.low;
        high = omega (arith, fits.high);
        size = omega (arith, fits.size);
      })
  | inr other ↦ rw other (record {
    layout = remove_block-IsLayout heap q s.live fits.layout;
    below = remove_block-AllBelow q (next_ptr heap s.last) s.live fits.below;
    others = remove_block-AllButAt q s.last.ptr s.live fits.others;
    low = fits.low;
    high = omega (arith, fits.high);
    size = fits.size;
  })
]

calls-Fits :
    (heap : Area) (m : ℕ) (cs : List Call) (s : Usage)
    → 0 < heap.start
    → is_moderate cs ≡ true
    → m + heap.end * count_calls cs < 2 ^ 63
    → Fits heap m s
    → Fits heap (m + heap.end * count_calls cs) (calls heap cs s)
unfolding calls count_calls is_moderate
calls-Fits heap m [] s pos sizes room fits = record {
  layout = fits.layout;
  below = fits.below;
  others = fits.others;
  low = fits.low;
  high = omega (arith, fits.high);
  size = fits.size;
}
calls-Fits heap m (allocate n ∷ cs) s pos sizes room fits =
    let split : m + heap.end * suc (count_calls cs) ≡ m + heap.end + heap.end * count_calls cs =
      omega (arith, mul-suc heap.end (count_calls cs)) in
    let small : n < 2 ^ 62 = ground arith in
    let rest : is_moderate cs ≡ true = ground arith in
    rw split (
      calls-Fits heap (m + heap.end) cs (call heap (allocate n) s) pos rest (rw split at room)
        (allocate-Fits heap m n s pos (omega arith) small fits))
calls-Fits heap m (release q ∷ cs) s pos sizes room fits =
    let split : m + heap.end * suc (count_calls cs) ≡ m + heap.end + heap.end * count_calls cs =
      omega (arith, mul-suc heap.end (count_calls cs)) in
    rw split (
      calls-Fits heap (m + heap.end) cs (call heap (release q) s) pos sizes (rw split at room)
        (release-Fits heap m q s fits))

-- Before the first call.
abbrev pub unused : Usage
unused = record { last = record { ptr = 0; size = 0 }; live = [] }

-- After every sequence of `malloc` and `free` from the start, failed calls of `malloc` and repeated
-- or unfounded calls of `free` included, the blocks in use, each with the size that was asked for, lie
-- in the heap and do not overlap: each one ends before or where the newer ones start. The heap is
-- not empty and does not start at 0, sizes are positive and below 2 ^ 62, and the heap's end times one
-- more than the number of calls is below 2 ^ 63.
pub calls-IsLayout :
    (heap : Area) (cs : List Call)
    → 0 < heap.start
    → heap.start < heap.end
    → is_moderate cs ≡ true
    → heap.end * suc (count_calls cs) < 2 ^ 63
    → IsLayout heap (calls heap cs unused).live
unfolding IsLayout AllBelow AllButAt
calls-IsLayout heap cs pos nonempty sizes room =
    let split : heap.end * suc (count_calls cs) ≡ heap.end + heap.end * count_calls cs =
      omega (arith, mul-suc heap.end (count_calls cs)) in
    (calls-Fits heap heap.end cs unused pos sizes (rw split at room) (record {
      layout = tt;
      below = tt;
      others = tt;
      low = omega arith;
      high = omega arith;
      size = omega arith;
    })).layout
