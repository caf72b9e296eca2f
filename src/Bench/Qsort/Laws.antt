-- ===== src/Bench/Qsort/Laws.antt =====
-- `myqsort` sorts, and the elements stay the same.
use wukong_am.Base.{ℕ, zero, suc, ◌+◌, ◌-◌, ◌<◌, ◌≤◌, ◌≡◌, refl, ap, ◌∙◌, true, false, arith}
use wukong_am.Base.{Bool-cases, inl, inr, ◌==◌, ltb, Option, none, some}
use wukong_am.Base.Bytes.{Array}
use wukong_am.Bench.Qsort.{key, swap, partition, myqsort}
use wukong_am.Bench.Qsort.Occurs.{occurs, occurs-swap, occurs_inside, occurs_all}
use wukong_am.Bench.Qsort.Partition.{swap_left, swap_right, swap_other, partition_lem}

-- The elements from `l` to `r` are in order in `m'`, and `m'` has the elements of `m` there and
-- everything else of `m`.
pub record IsSorted (l r : ℕ) (m m' : Array) : Type 0 where
  pub order : (i j : ℕ) → l ≤ i → i < j → j < r → key (m' i) ≤ key (m' j)
  pub front : (i : ℕ) → i < l → m' i ≡ m i
  pub back : (i : ℕ) → r ≤ i → m' i ≡ m i
  pub counts : (v n : ℕ) → l + n ≡ r → occurs v l n m' ≡ occurs v l n m

-- The pivot in its place: smaller elements before it, and no smaller ones behind it.
record IsPlaced (l pivot r : ℕ) (m m2 : Array) : Type 0 where
  pub here : (l ≤ pivot) × (pivot < r)
  pub low : (i : ℕ) → l ≤ i → i < pivot → key (m2 i) ≤ key (m2 pivot)
  pub high : (i : ℕ) → pivot < i → i < r → key (m2 pivot) ≤ key (m2 i)
  pub front : (i : ℕ) → i < l → m2 i ≡ m i
  pub back : (i : ℕ) → r ≤ i → m2 i ≡ m i
  pub counts : (v n : ℕ) → l + n ≡ r → occurs v l n m2 ≡ occurs v l n m

placed :
    (l r : ℕ) (m : Array)
    → l < r
    → IsPlaced l (partition (r - (l + 1)) (l + 1) l (m l) m).0 r m (
        swap
          (partition (r - (l + 1)) (l + 1) l (m l) m).1
          (partition (r - (l + 1)) (l + 1) l (m l) m).0
          l)
placed l r m h =
    let (from, to, s, arranged) =
      partition_lem (r - (l + 1)) l l (l + 1) (m l) r m (omega arith) (omega arith) (omega arith)
        (record { low = λ i a b. absurd (omega arith); high = λ i a b. absurd (omega arith) }) in
    let pivot = (partition (r - (l + 1)) (l + 1) l (m l) m).0 in
    let m1 = (partition (r - (l + 1)) (l + 1) l (m l) m).1 in
    let first = arranged.front l (omega arith) in
    let mid : key (swap m1 pivot l pivot) ≡ key (m l) = ap key (swap_left m1 pivot l ∙ first) in
    record {
      here = (from, to);
      low = λ i a b. elim (Bool-cases (i == l)) [
        | inl at ↦
            let e : i ≡ l = ground arith in
            let value = ap (λ x. key (swap m1 pivot l x)) e ∙ ap key (swap_right m1 pivot l) in
            let less = s.low pivot (omega (arith, e)) (omega arith) in omega (arith, value, mid)
        | inr other ↦
            let value = ap key (swap_other m1 pivot l i (ground arith) other) in
            let less = s.low i (ground arith) (omega arith) in omega (arith, value, mid)
      ];
      high = λ i a b.
          let value = ap key (swap_other m1 pivot l i (ground arith) (ground arith)) in
          let more = s.high i a b in omega (arith, value, mid);
      front = λ i a.
          swap_other m1 pivot l i (ground arith) (ground arith) ∙ arranged.front i (omega arith);
      back = λ i a. swap_other m1 pivot l i (ground arith) (ground arith) ∙ arranged.back i a;
      counts = λ v n e.
          occurs-swap v l n pivot l m1 (omega arith) (omega arith) (omega arith) (omega arith)
          ∙ arranged.counts v n e;
    }

module _ (l pivot r : ℕ) (m m2 m3 m4 : Array) where
  module _ (p : IsPlaced l pivot r m m2) (a : IsSorted l pivot m2 m3)
      (b : IsSorted (pivot + 1) r m3 m4) where
    -- The pivot, and the elements before and behind it after both calls.
    at_pivot : m4 pivot ≡ m2 pivot
    at_pivot = b.front pivot (omega arith) ∙ a.back pivot (omega arith)

    before_pivot : (i : ℕ) → l ≤ i → i < pivot → key (m4 i) ≤ key (m4 pivot)
    before_pivot i h k =
        let bound =
          occurs_all l (pivot - l) m2 m3 (λ x. key x ≤ key (m2 pivot))
            (λ v. a.counts v (pivot - l) (omega arith)) (λ j hj kj. p.low j hj (omega arith)) i h
            (omega arith) in
        let same = ap key (b.front i (omega arith)) in
        let middle = ap key at_pivot in omega (arith, same, middle, bound)

    behind_pivot : (i : ℕ) → pivot < i → i < r → key (m4 pivot) ≤ key (m4 i)
    behind_pivot i h k =
        let high = λ (j : ℕ) (hj : pivot + 1 ≤ j) (kj : j < pivot + 1 + (r - (pivot + 1))).
          let same = ap key (a.back j (omega arith)) in
          let value = p.high j (omega arith) (omega arith) in
          the_le (key (m2 pivot)) (key (m3 j)) (omega (arith, same)) in
        let bound =
          occurs_all (pivot + 1) (r - (pivot + 1)) m3 m4 (λ x. key (m2 pivot) ≤ key x)
            (λ v. b.counts v (r - (pivot + 1)) (omega arith)) high i (omega arith) (omega arith) in
        let middle = ap key at_pivot in omega (arith, middle, bound)
      where
        the_le : (x y : ℕ) → x ≤ y → x ≤ y
        the_le x y e = e

    joined_order : (i j : ℕ) → l ≤ i → i < j → j < r → key (m4 i) ≤ key (m4 j)
    joined_order i j h less k = elim (Bool-cases (ltb j pivot)) [
      | inl left ↦
          let same = ap key (b.front i (ground arith)) in
          let same' = ap key (b.front j (ground arith)) in
          let value = a.order i j h less (ground arith) in omega (arith, same, same')
      | inr not_left ↦ elim (Bool-cases (ltb pivot i)) [
        | inl right ↦ b.order i j (ground arith) less k
        | inr not_right ↦ elim (Bool-cases (i == pivot)) [
          | inl at ↦
              let e : i ≡ pivot = ground arith in
              let value = ap (λ x. key (m4 x)) e in
              let up = behind_pivot j (omega (arith, e)) k in omega (arith, value)
          | inr low ↦ elim (Bool-cases (j == pivot)) [
            | inl at ↦
                let e : j ≡ pivot = ground arith in
                let value = ap (λ x. key (m4 x)) e in
                let up = before_pivot i h (ground arith) in omega (arith, value)
            | inr high ↦
                let up = before_pivot i h (ground arith) in
                let up' = behind_pivot j (ground arith) k in omega arith
          ]
        ]
      ]
    ]

    joined_counts : (v n : ℕ) → l + n ≡ r → occurs v l n m4 ≡ occurs v l n m
    joined_counts v n e =
        let here = p.here in
        occurs_inside v l n (pivot + 1) (r - (pivot + 1)) m4 m3 (omega (arith, here.0))
          (omega (arith, here.1)) (λ i h. b.front i h) (λ i h. b.back i (omega (arith, here.1)))
          (b.counts v (r - (pivot + 1)) (omega (arith, here.1)))
        ∙ occurs_inside v l n l (pivot - l) m3 m2 (omega arith) (omega (arith, here.0, here.1))
            (λ i h. a.front i h) (λ i h. a.back i (omega (arith, here.0)))
            (a.counts v (pivot - l) (omega (arith, here.0)))
        ∙ p.counts v n e

    -- The parts before and behind the pivot are sorted one after the other.
    joined-IsSorted : IsSorted l r m m4
    joined-IsSorted =
        let (from, to) = p.here in
        record {
          order = joined_order;
          front = λ i h. b.front i (omega arith) ∙ a.front i h ∙ p.front i h;
          back = λ i h. b.back i h ∙ a.back i (omega arith) ∙ p.back i h;
          counts = joined_counts;
        }

-- The two recursive calls.
both_calls : ℕ → ℕ → ℕ → ℕ → Array → Option Array
both_calls fuel l pivot r m2 = elim (myqsort fuel m2 l pivot) [
  | none ↦ none
  | some m3 ↦ myqsort fuel m3 (pivot + 1) r
]

myqsort_step :
    (fuel l r : ℕ) (m : Array)
    → ltb l r ≡ true
    → myqsort (suc fuel) m l r
      ≡ both_calls fuel l (partition (r - (l + 1)) (l + 1) l (m l) m).0 r (
          swap
            (partition (r - (l + 1)) (l + 1) l (m l) m).1
            (partition (r - (l + 1)) (l + 1) l (m l) m).0
            l)
unfolding myqsort both_calls
myqsort_step fuel l r m h = rw h refl

myqsort_empty : (fuel l r : ℕ) (m : Array) → ltb l r ≡ false → myqsort (suc fuel) m l r ≡ some m
unfolding myqsort
myqsort_empty fuel l r m h = rw h refl

-- With more fuel than there are elements, `myqsort` ends, and from `l` to `r` its result is in the
-- order of `int` and has each value as often as before; the rest of the array stays.
pub myqsort-IsSorted :
    (fuel l r : ℕ) (m : Array)
    → r - l < fuel
    → (m' : Array) × (myqsort fuel m l r ≡ some m') × IsSorted l r m m'
unfolding both_calls
myqsort-IsSorted zero l r m h = absurd (omega arith)
myqsort-IsSorted (suc fuel) l r m h = elim (Bool-cases (ltb l r)) [
  | inl some_left ↦
      let pivot = (partition (r - (l + 1)) (l + 1) l (m l) m).0 in
      let m2 = swap (partition (r - (l + 1)) (l + 1) l (m l) m).1 pivot l in
      let p = placed l r m (ground arith) in
      let here = p.here in
      let (m3, runs, a) = myqsort-IsSorted fuel l pivot m2 (omega (arith, here.0, here.1)) in
      let (m4, runs', b) = myqsort-IsSorted fuel (pivot + 1) r m3 (omega (arith, here.0, here.1)) in
      (
        m4,
        myqsort_step fuel l r m some_left
            ∙ ap
                (λ (o : Option Array). elim o as (λ x. Option Array) [
                  | none ↦ none
                  | some q ↦ myqsort fuel q (pivot + 1) r
                ])
                runs
            ∙ runs',
        joined-IsSorted l pivot r m m2 m3 m4 p a b,
      )
  | inr nothing ↦ (
    m,
    myqsort_empty fuel l r m nothing,
    record {
      order = λ i j a b c. absurd (ground arith);
      front = λ i a. refl;
      back = λ i a. refl;
      counts = λ v n e. refl;
    },
  )
]
