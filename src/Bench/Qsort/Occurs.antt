-- ===== src/Bench/Qsort/Occurs.antt =====
-- How often a value occurs in a part of an array.
use mathlib.Core.Path.{subst}
use wukong_am.Base.{ℕ, zero, suc, ◌+◌, ◌-◌, ◌<◌, ◌≤◌, ◌≡◌, refl, sym, ap, ◌∙◌, arith}
use wukong_am.Base.{Bool-cases, inl, inr, ◌==◌, of_bool}
use wukong_am.Base.Bytes.{Array, write}
use wukong_am.Bench.Qsort.{swap}

-- In the `n` elements from `l` on.
pub occurs : ℕ → ℕ → ℕ → Array → ℕ
occurs v l zero m = 0
occurs v l (suc n) m = occurs v l n m + of_bool (m (l + n) == v)

pub occurs_add :
    (v l a b : ℕ) (m : Array) → occurs v l (a + b) m ≡ occurs v l a m + occurs v (l + a) b m
unfolding occurs
occurs_add v l a zero m =
    let e : a + 0 ≡ a = omega arith in ap (λ n. occurs v l n m) e ∙ omega arith
occurs_add v l a (suc b) m =
    let e : a + suc b ≡ suc (a + b) = omega arith in
    let at : l + (a + b) ≡ l + a + b = omega arith in
    let same = ap (λ i. of_bool (m i == v)) at in
    ap (λ n. occurs v l n m) e ∙ omega (arith, occurs_add v l a b m, same)

pub occurs_same :
    (v l n : ℕ) (m m' : Array)
    → ((i : ℕ) → l ≤ i → i < l + n → m i ≡ m' i)
    → occurs v l n m ≡ occurs v l n m'
unfolding occurs
occurs_same v l zero m m' same = refl
occurs_same v l (suc n) m m' same =
    let this = ap (λ x. of_bool (x == v)) (same (l + n) (omega arith) (omega arith)) in
    omega (arith, this, occurs_same v l n m m' (λ i h k. same i h (omega arith)))

-- A write changes the count by its old and its new value.
occurs-write :
    (v l n a x : ℕ) (m : Array)
    → l ≤ a
    → a < l + n
    → occurs v l n (write m a x) + of_bool (m a == v) ≡ occurs v l n m + of_bool (x == v)
unfolding occurs
occurs-write v l zero a x m h k = absurd (omega arith)
occurs-write v l (suc n) a x m h k = elim (Bool-cases (l + n == a)) [
  | inl here ↦
      let e : l + n ≡ a = ground arith in
      let old = ap m e in
      let rest = occurs_same v l n (write m a x) m (λ i hi ki. ground arith) in
      ground (arith, rest, old)
  | inr other ↦ ground (arith, occurs-write v l n a x m h (ground arith))
]

pub occurs-swap :
    (v l n a b : ℕ) (m : Array)
    → l ≤ a
    → a < l + n
    → l ≤ b
    → b < l + n
    → occurs v l n (swap m a b) ≡ occurs v l n m
unfolding swap
occurs-swap v l n a b m ha ka hb kb =
    let first = occurs-write v l n a (m b) m ha ka in
    let second = occurs-write v l n b (m a) (write m a (m b)) hb kb in
    elim (Bool-cases (b == a)) [
      | inl same ↦
          let e : b ≡ a = ground arith in
          let at = ap m e in
          let here : write m a (m b) b ≡ m b = rw same refl in
          let here' = ap (λ y. of_bool (y == v)) here in
          let at' = ap (λ y. of_bool (y == v)) at in omega (arith, first, second, here', at')
      | inr other ↦
          let there : write m a (m b) b ≡ m b = rw other refl in
          let there' = ap (λ y. of_bool (y == v)) there in omega (arith, first, second, there')
    ]

-- A value that occurs stands somewhere, and one that stands somewhere occurs.
pub occurs_find :
    (v l n : ℕ) (m : Array) → 0 < occurs v l n m → (i : ℕ) × (l ≤ i) × (i < l + n) × (m i ≡ v)
unfolding occurs
occurs_find v l zero m h = absurd (omega arith)
occurs_find v l (suc n) m h = elim (Bool-cases (m (l + n) == v)) [
  | inl here ↦ (l + n, omega arith, omega arith, ground arith)
  | inr other ↦
      let (i, a, b, e) = occurs_find v l n m (ground (arith, other)) in (i, a, omega arith, e)
]

pub occurs_pos : (l n i : ℕ) (m : Array) → l ≤ i → i < l + n → 0 < occurs (m i) l n m
unfolding occurs
occurs_pos l zero i m h k = absurd (omega arith)
occurs_pos l (suc n) i m h k = elim (Bool-cases (l + n == i)) [
  | inl here ↦ let e : l + n ≡ i = ground arith in let at = ap m e in ground (arith, at)
  | inr other ↦ let before = occurs_pos l n i m h (ground arith) in omega arith
]

-- A part changes and keeps its counts.
pub occurs_inside :
    (v l n s b : ℕ) (m m' : Array)
    → l ≤ s
    → s + b ≤ l + n
    → ((i : ℕ) → i < s → m i ≡ m' i)
    → ((i : ℕ) → s + b ≤ i → m i ≡ m' i)
    → occurs v s b m ≡ occurs v s b m'
    → occurs v l n m ≡ occurs v l n m'
occurs_inside v l n s b m m' h k before after inside =
    let a = s - l in
    let c = l + n - (s + b) in
    let size : a + (b + c) ≡ n = omega arith in
    let start : l + a ≡ s = omega arith in
    let parts = λ (q : Array).
      ap (λ t. occurs v l t q) (sym size)
      ∙ occurs_add v l a (b + c) q
      ∙ ap (λ t. occurs v l a q + occurs v t (b + c) q) start in
    let first = occurs_same v l a m m' (λ i hi ki. before i (omega arith)) in
    let third = occurs_same v (s + b) c m m' (λ i hi ki. after i hi) in
    omega
      (arith, parts m, parts m', occurs_add v s b c m, occurs_add v s b c m', first, third, inside)

-- What holds of every element of a part holds of every element of one with the same counts.
pub occurs_all :
    (l n : ℕ) (m m' : Array) (P : ℕ → Type 0)
    → ((v : ℕ) → occurs v l n m' ≡ occurs v l n m)
    → ((i : ℕ) → l ≤ i → i < l + n → P (m i))
    → (i : ℕ) → l ≤ i
    → i < l + n
    → P (m' i)
occurs_all l n m m' P same all i h k =
    let pos = occurs_pos l n i m' h k in
    let (j, a, b, e) = occurs_find (m' i) l n m (omega (arith, same (m' i))) in
    subst P e (all j a b)
