-- ===== src/Bench/Qsort/Partition.antt =====
-- What the loop of `myqsort` does: it puts the smaller elements first.
use wukong_am.Base.{ℕ, zero, suc, ◌+◌, ◌<◌, ◌≤◌, ◌≡◌, refl, ap, ◌∙◌, true, false, arith}
use wukong_am.Base.{Bool-cases, inl, inr, ◌==◌, ltb}
use wukong_am.Base.Bytes.{Array}
use wukong_am.Bench.Qsort.{key, swap, partition}
use wukong_am.Bench.Qsort.Occurs.{occurs, occurs-swap}

pub swap_right : (m : Array) (a b : ℕ) → swap m a b b ≡ m a
unfolding swap
swap_right m a b = let e : (b == b) ≡ true = ground arith in rw e refl

pub swap_left : (m : Array) (a b : ℕ) → swap m a b a ≡ m b
unfolding swap
swap_left m a b = elim (Bool-cases (a == b)) [
  | inl same ↦ let e : a ≡ b = ground arith in rw same (ap m e)
  | inr other ↦ let e : (a == a) ≡ true = ground arith in rw (other, e) refl
]

pub swap_other : (m : Array) (a b i : ℕ) → (i == a) ≡ false → (i == b) ≡ false → swap m a b i ≡ m i
unfolding swap
swap_other m a b i h k = rw (h, k) refl

-- Up to `pivot` the elements behind `l` are smaller than `p`, and from there to `j` they are not.
pub record IsSplit (l pivot j p : ℕ) (m : Array) : Type 0 where
  pub low : (i : ℕ) → l < i → i ≤ pivot → key (m i) < key p
  pub high : (i : ℕ) → pivot < i → i < j → key p ≤ key (m i)

-- The part from `l` to `r` is rearranged behind `l`.
pub record IsArranged (l r : ℕ) (m m' : Array) : Type 0 where
  pub front : (i : ℕ) → i ≤ l → m' i ≡ m i
  pub back : (i : ℕ) → r ≤ i → m' i ≡ m i
  pub counts : (v n : ℕ) → l + n ≡ r → occurs v l n m' ≡ occurs v l n m

-- One exchange of the loop.
swap-IsSplit :
    (l pivot j p : ℕ) (m : Array)
    → l ≤ pivot
    → pivot < j
    → key (m j) < key p
    → IsSplit l pivot j p m
    → IsSplit l (pivot + 1) (j + 1) p (swap m (pivot + 1) j)
swap-IsSplit l pivot j p m h k less s =
    let left = ap key (swap_left m (pivot + 1) j) in
    let right = ap key (swap_right m (pivot + 1) j) in
    record {
      low = λ i a b. elim (Bool-cases (i == pivot + 1)) [
        | inl here ↦
            let e : i ≡ pivot + 1 = ground arith in
            let at = ap (λ x. key (swap m (pivot + 1) j x)) e in omega (arith, at, left)
        | inr other ↦
            let same = ap key (swap_other m (pivot + 1) j i other (ground arith)) in
            let old = s.low i a (ground arith) in omega (arith, same)
      ];
      high = λ i a b. elim (Bool-cases (i == j)) [
        | inl here ↦
            let e : i ≡ j = ground arith in
            let at = ap (λ x. key (swap m (pivot + 1) j x)) e in
            let old = s.high (pivot + 1) (omega arith) (omega (arith, e)) in
            omega (arith, at, right)
        | inr other ↦
            let same = ap key (swap_other m (pivot + 1) j i (ground arith) other) in
            let old = s.high i (omega arith) (ground arith) in omega (arith, same)
      ];
    }

kept-IsSplit :
    (l pivot j p : ℕ) (m : Array)
    → key p ≤ key (m j)
    → IsSplit l pivot j p m
    → IsSplit l pivot (j + 1) p m
kept-IsSplit l pivot j p m more s = record {
  low = s.low;
  high = λ i a b. elim (Bool-cases (i == j)) [
    | inl here ↦ let e : i ≡ j = ground arith in let at = ap (λ x. key (m x)) e in omega (arith, at)
    | inr other ↦ s.high i a (ground arith)
  ];
}

swap-IsArranged :
    (l r a b : ℕ) (m : Array) → l < a → a < r → l < b → b < r → IsArranged l r m (swap m a b)
swap-IsArranged l r a b m ha ka hb kb = record {
  front = λ i h. swap_other m a b i (ground arith) (ground arith);
  back = λ i h. swap_other m a b i (ground arith) (ground arith);
  counts = λ v n e. occurs-swap v l n a b m (omega arith) (omega arith) (omega arith) (omega arith);
}

pub IsArranged-trans :
    (l r : ℕ) (m m' m'' : Array)
    → IsArranged l r m m'
    → IsArranged l r m' m''
    → IsArranged l r m m''
IsArranged-trans l r m m' m'' x y = record {
  front = λ i h. y.front i h ∙ x.front i h;
  back = λ i h. y.back i h ∙ x.back i h;
  counts = λ v n e. y.counts v n e ∙ x.counts v n e;
}

-- The loop ends with the whole part split.
pub partition_lem :
    (left l pivot j p r : ℕ) (m : Array)
    → j + left ≡ r
    → l ≤ pivot
    → pivot < j
    → IsSplit l pivot j p m
    → (l ≤ (partition left j pivot p m).0)
      × ((partition left j pivot p m).0 < r)
      × IsSplit l (partition left j pivot p m).0 r p (partition left j pivot p m).1
      × IsArranged l r m (partition left j pivot p m).1
unfolding partition
partition_lem zero l pivot j p r m end h k s = (
  h,
  omega arith,
  record { low = s.low; high = λ i a b. s.high i a (omega arith) },
  record { front = λ i a. refl; back = λ i a. refl; counts = λ v n e. refl },
)
partition_lem (suc left) l pivot j p r m end h k s = elim (Bool-cases (ltb (key (m j)) (key p))) [
  | inl less ↦
      let m1 = swap m (pivot + 1) j in
      let (a, b, split, arranged) =
        partition_lem left l (pivot + 1) (j + 1) p r m1 (omega arith) (omega arith) (omega arith)
          (swap-IsSplit l pivot j p m h k (ground arith) s) in
      let step =
        swap-IsArranged l r (pivot + 1) j m (omega arith) (omega arith) (omega arith)
          (omega arith) in
      rw less (
        a,
        b,
        split,
        IsArranged-trans l r m m1 (partition left (j + 1) (pivot + 1) p m1).1 step arranged,
      )
  | inr more ↦ rw more (
      partition_lem left l pivot (j + 1) p r m (omega arith) h (omega arith)
        (kept-IsSplit l pivot j p m (ground arith) s))
]
