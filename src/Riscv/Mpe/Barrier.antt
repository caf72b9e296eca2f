-- ===== src/Riscv/Mpe/Barrier.antt =====
-- What holds in every state of the barrier: its phases.
use mathlib.Core.Path.{fun_ext}
use wukong_am.Base.{ℕ, suc, ◌+◌, ◌-◌, ◌%◌, ◌<◌, ◌≡◌, refl, sym, ap, ◌∙◌, true, false, arith}
use wukong_am.Base.{Bool, Bool-cases, inl, inr, ◌==◌, if◌then◌else◌, of_bool, ◌⊎◌}
use wukong_am.Riscv.Mpe.{Location, outside, counting, last, releasing, waiting, Thread, Mpe}
use wukong_am.Riscv.Mpe.Tally.{tally, with_value, tally-with_value}

-- A processor in round `r`, while the barrier is open: outside, before the addition, in the loop of
-- this round, or in the loop of the round before.
pub data Status : Type 0 where
  idle : Status
  entering : Status
  arrived : Status
  released : Status

abbrev pub thread_of : ℕ → Status → Thread
thread_of r idle = record { location = outside; threadsense = r % 2; entered = r; left = r }
thread_of r entering = record {
  location = counting;
  threadsense = suc r % 2;
  entered = suc r;
  left = r;
}
thread_of r arrived = record {
  location = waiting;
  threadsense = suc r % 2;
  entered = suc r;
  left = r;
}
thread_of r released = record { location = waiting; threadsense = r % 2; entered = r; left = r - 1 }

abbrev pub is_arrived : Status → Bool
is_arrived idle = false
is_arrived entering = false
is_arrived arrived = true
is_arrived released = false

abbrev pub is_released : Status → Bool
is_released idle = false
is_released entering = false
is_released arrived = false
is_released released = true

-- The last processor of a round, before and after `count = 0`.
abbrev pub closing_at : ℕ → Location → Thread
closing_at r location = record {
  location = location;
  threadsense = suc r % 2;
  entered = suc r;
  left = r;
}

ap_if :
    (b : Bool) (x y : Status)
    → is_arrived (if b then x else y) ≡ (if b then is_arrived x else is_arrived y)
ap_if true x y = refl
ap_if false x y = refl

pub equal : (j i : ℕ) → (j == i) ≡ true → j ≡ i
equal j i h = ground arith

module _ (ncpu : ℕ) where
  -- Some processors have not arrived.
  pub record IsOpen (s : Mpe) (r : ℕ) (status : ℕ → Status) : Type 0 where
    pub sense : s.sense ≡ r % 2
    pub threads : (i : ℕ) → i < ncpu → s.threads i ≡ thread_of r (status i)
    pub count : s.count ≡ tally ncpu (λ i. is_arrived (status i))
    pub few : tally ncpu (λ i. is_arrived (status i)) < ncpu
    pub later : (i : ℕ) → i < ncpu → is_released (status i) ≡ true → 0 < r

  -- All have arrived, processor `i` as the last.
  pub record IsClosing (s : Mpe) (r i : ℕ) : Type 0 where
    pub sense : s.sense ≡ r % 2
    pub inside : i < ncpu
    pub closes :
        (s.threads i ≡ closing_at r last) ⊎ ((s.threads i ≡ closing_at r releasing) × (s.count ≡ 0))
    pub threads : (j : ℕ) → j < ncpu → (j == i) ≡ false → s.threads j ≡ thread_of r arrived

  abbrev pub IsBarrier : Mpe → Type 0
  IsBarrier s =
      (r : ℕ) × (((status : ℕ → Status) × IsOpen s r status) ⊎ ((i : ℕ) × IsClosing s r i))

  -- One processor changes its status, with the count of the arrived.
  pub set_thread-IsOpen :
      (s t : Mpe) (r i : ℕ) (status : ℕ → Status) (new : Status)
      → i < ncpu
      → IsOpen s r status
      → t.sense ≡ s.sense
      → ((j : ℕ) → (j == i) ≡ false → t.threads j ≡ s.threads j)
      → t.threads i ≡ thread_of r new
      → t.count + of_bool (is_arrived (status i)) ≡ s.count + of_bool (is_arrived new)
      → s.count + of_bool (is_arrived new) < ncpu + of_bool (is_arrived (status i))
      → (is_released new ≡ true → 0 < r)
      → IsOpen t r (λ j. if j == i then new else status j)
  set_thread-IsOpen s t r i status new hi h sense others this count few later =
      let count_s = h.count in
      let sum = tally-with_value ncpu (λ j. is_arrived (status j)) i (is_arrived new) hi in
      let same : tally ncpu (λ j. is_arrived (if j == i then new else status j))
          ≡ tally ncpu (with_value (λ j. is_arrived (status j)) i (is_arrived new)) =
        ap (tally ncpu) (fun_ext (λ j. ap_if (j == i) new (status j))) in
      record {
        sense = sense ∙ h.sense;
        threads = λ j hj. elim (Bool-cases (j == i)) [
          | inl here ↦ rw here (ap t.threads (equal j i here) ∙ this)
          | inr other ↦ rw other (others j other ∙ h.threads j hj)
        ];
        count = omega (arith, same);
        few = omega (arith, same);
        later = λ j hj e. elim (Bool-cases (j == i)) [
          | inl here ↦ later (sym (ap (λ b. is_released (if b then new else status j)) here) ∙ e)
          | inr other ↦
              h.later j hj (sym (ap (λ b. is_released (if b then new else status j)) other) ∙ e)
        ];
      }
