-- ===== src/Bench/Qsort.antt =====
-- apps/microbench/src/qsort/qsort.c: the sort. The array `a` holds 32-bit patterns of `int`; the
-- recursion is on fuel, `none` without any.
pub mod Occurs
pub mod Partition
pub mod Laws
use wukong_am.Base.{ℕ, zero, suc, ◌+◌, ◌-◌, ◌^◌, Bool, ltb, if◌then◌else◌, Option, none, some, u32}
use wukong_am.Base.Bytes.{Array, write}

-- The order of `int`, as an order of numbers.
abbrev pub key : ℕ → ℕ
key x = u32 (x + 2 ^ 31)

pub swap : Array → ℕ → ℕ → Array
swap m a b = write (write m a (m b)) b (m a)

-- The loop from `j` on with `left` elements to go: the pivot's place, and the array.
pub partition : ℕ → ℕ → ℕ → ℕ → Array → ℕ × Array
partition zero j pivot p m = (pivot, m)
partition (suc left) j pivot p m =
    if ltb (key (m j)) (key p)
    then partition left (j + 1) (pivot + 1) p (swap m (pivot + 1) j)
    else partition left (j + 1) pivot p m

pub myqsort : ℕ → Array → ℕ → ℕ → Option Array
myqsort zero m l r = none
myqsort (suc fuel) m l r =
    let (pivot, m1) = partition (r - (l + 1)) (l + 1) l (m l) m in
    let m2 = swap m1 pivot l in
    let sorted : Option Array = elim (myqsort fuel m2 l pivot) [
      | none ↦ none
      | some m3 ↦ myqsort fuel m3 (pivot + 1) r
    ] in
    if ltb l r then sorted else some m
