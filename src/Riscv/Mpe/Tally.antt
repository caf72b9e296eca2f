-- ===== src/Riscv/Mpe/Tally.antt =====
-- Counting the processors that have arrived at the barrier.
use wukong_am.Base.{ℕ, zero, suc, ◌+◌, ◌<◌, ◌≤◌, ◌≡◌, refl, sym, ap, ◌∙◌, true, false, arith}
use wukong_am.Base.{Bool, Bool-cases, inl, inr, ◌==◌, if◌then◌else◌, of_bool}

pub tally : ℕ → (ℕ → Bool) → ℕ
tally zero test = 0
tally (suc n) test = tally n test + of_bool (test n)

-- The test with another value at `i`.
abbrev pub with_value : (ℕ → Bool) → ℕ → Bool → ℕ → Bool
with_value test i b j = if j == i then b else test j

tally-le : (n : ℕ) (test : ℕ → Bool) → tally n test ≤ n
unfolding tally
tally-le zero test = omega arith
tally-le (suc n) test = ground (arith, tally-le n test)

-- Values from `n` on do not count.
tally_outside :
    (n : ℕ) (test : ℕ → Bool) (i : ℕ) (b : Bool)
    → n ≤ i
    → tally n (with_value test i b) ≡ tally n test
unfolding tally
tally_outside zero test i b h = refl
tally_outside (suc n) test i b h = ground (arith, tally_outside n test i b)

pub tally-with_value :
    (n : ℕ) (test : ℕ → Bool) (i : ℕ) (b : Bool)
    → i < n
    → tally n (with_value test i b) + of_bool (test i) ≡ tally n test + of_bool b
unfolding tally
tally-with_value zero test i b h = absurd (omega arith)
tally-with_value (suc n) test i b h = elim (Bool-cases (n == i)) [
  | inl here ↦
      let e : n ≡ i = ground arith in
      let same = ap test e in ground (arith, tally_outside n test i b (omega arith), same)
  | inr other ↦ ground (arith, tally-with_value n test i b (ground arith))
]

pub tally_full : (n : ℕ) (test : ℕ → Bool) (j : ℕ) → tally n test ≡ n → j < n → test j ≡ true
unfolding tally
tally_full zero test j full h = absurd (omega arith)
tally_full (suc n) test j full h = elim (Bool-cases (n == j)) [
  | inl here ↦ let e : n ≡ j = ground arith in ap test (sym e) ∙ ground (arith, tally-le n test)
  | inr other ↦ tally_full n test j (ground (arith, tally-le n test)) (ground arith)
]

pub tally_none : (n : ℕ) (test : ℕ → Bool) → ((j : ℕ) → j < n → test j ≡ false) → tally n test ≡ 0
unfolding tally
tally_none zero test none_of = refl
tally_none (suc n) test none_of =
    let this = none_of n (omega arith) in
    let before = tally_none n test (λ j h. none_of j (omega arith)) in ground arith

pub tally_short :
    (n : ℕ) (test : ℕ → Bool) → tally n test < n → (j : ℕ) × (j < n) × (test j ≡ false)
unfolding tally
tally_short zero test h = absurd (omega arith)
tally_short (suc n) test h = elim (Bool-cases (test n)) [
  | inl here ↦ let (j, hj, e) = tally_short n test (ground (arith, here)) in (j, omega arith, e)
  | inr not_here ↦ (n, omega arith, not_here)
]
