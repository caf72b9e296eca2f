-- ===== src/Riscv/Mpe/Laws.antt =====
-- The barrier of am/src/xs/isa/riscv/mpe.c in every order of the turns.
use wukong_am.Base.{ℕ, ◌%◌, ◌^◌, ◌<◌, ◌≤◌, ◌≡◌, refl, ap, ◌∙◌, false, arith}
use wukong_am.Base.{Bool, not, Bool-cases, inl, inr, ◌==◌}
use wukong_am.Riscv.Mpe.{
  Location, outside, counting, last, releasing, waiting, Thread, Mpe, Reachable,
}
use wukong_am.Riscv.Mpe.Tally.{tally_short}
use wukong_am.Riscv.Mpe.Barrier.{
  Status, idle, entering, arrived, released, thread_of, closing_at, is_arrived, IsBarrier, equal,
}
use wukong_am.Riscv.Mpe.Phases.{Reachable-IsBarrier}

-- In the loop, with another round's `sense`.
abbrev pub is_spinning : Location → ℕ → ℕ → Bool
is_spinning outside sense threadsense = false
is_spinning counting sense threadsense = false
is_spinning last sense threadsense = false
is_spinning releasing sense threadsense = false
is_spinning waiting sense threadsense = not (sense == threadsense)

abbrev pub spins : Mpe → ℕ → Bool
spins s i = is_spinning (s.threads i).location s.sense (s.threads i).threadsense

module _ (ncpu : ℕ) (small : ncpu < 2 ^ 64) where
  -- What a processor has returned from, and entered, in round `r`.
  left_le : (r : ℕ) (x : Status) → (thread_of r x).left ≤ r
  left_le r idle = omega arith
  left_le r entering = omega arith
  left_le r arrived = omega arith
  left_le r released = omega arith

  entered_ge : (r : ℕ) (x : Status) → r ≤ (thread_of r x).entered
  entered_ge r idle = omega arith
  entered_ge r entering = omega arith
  entered_ge r arrived = omega arith
  entered_ge r released = omega arith

  bounds :
      (s : Mpe) (i : ℕ)
      → (h : IsBarrier ncpu s) → i < ncpu
      → ((s.threads i).left ≤ h.0) × (h.0 ≤ (s.threads i).entered)
  bounds s i (r, inl (status, h)) hi =
      let at = h.threads i hi in
      let left = ap (λ (t : Thread). t.left) at in
      let entered = ap (λ (t : Thread). t.entered) at in
      (omega (arith, left, left_le r (status i)), omega (arith, entered, entered_ge r (status i)))
  bounds s i (r, inr (k, h)) hi = elim (Bool-cases (i == k)) [
    | inl here ↦ elim h.closes [
      | inl at ↦ go r last (ap s.threads (equal i k here) ∙ at)
      | inr (at, zero_count) ↦ go r releasing (ap s.threads (equal i k here) ∙ at)
    ]
    | inr other ↦ go r waiting (h.threads i hi other)
  ]
    where
      go :
          (q : ℕ) (location : Location)
          → s.threads i ≡ closing_at q location
          → ((s.threads i).left ≤ q) × (q ≤ (s.threads i).entered)
      go q location at =
          let left = ap (λ (t : Thread). t.left) at in
          let entered = ap (λ (t : Thread). t.entered) at in
          (omega (arith, left), omega (arith, entered))

  -- With fewer than 2 ^ 64 processors and at least one, in every state that turns in any order reach, a
  -- processor has not returned from more calls of `_barrier` than any processor has entered.
  pub left_le_entered :
      (s : Mpe) (i j : ℕ)
      → 0 < ncpu
      → Reachable ncpu s
      → i < ncpu
      → j < ncpu
      → (s.threads i).left ≤ (s.threads j).entered
  left_le_entered s i j pos reach hi hj =
      let h = Reachable-IsBarrier ncpu small s pos reach in
      let a = bounds s i h hi in let b = bounds s j h hj in omega (arith, a.0, b.1)

  spins_lem :
      (s : Mpe) (i : ℕ) (t : Thread)
      → s.threads i ≡ t
      → spins s i ≡ is_spinning t.location s.sense t.threadsense
  spins_lem s i t e = ap (λ (x : Thread). is_spinning x.location s.sense x.threadsense) e

  moves :
      (r sense : ℕ) (x : Status)
      → sense ≡ r % 2
      → is_arrived x ≡ false
      → is_spinning (thread_of r x).location sense (thread_of r x).threadsense ≡ false
  moves r sense idle e h = refl
  moves r sense entering e h = refl
  moves r sense arrived e h = absurd (ground (arith, h))
  moves r sense released e h = ground (arith, e)

  -- With fewer than 2 ^ 64 processors and at least one, in every state that turns in any order reach,
  -- some processor does not wait in the loop of `_barrier` for another one.
  pub some_moves :
      (s : Mpe) → 0 < ncpu → Reachable ncpu s → (i : ℕ) × (i < ncpu) × (spins s i ≡ false)
  some_moves s pos reach = go (Reachable-IsBarrier ncpu small s pos reach)
    where
      go : IsBarrier ncpu s → (i : ℕ) × (i < ncpu) × (spins s i ≡ false)
      go (r, inl (status, h)) =
          let (i, hi, free) = tally_short ncpu (λ j. is_arrived (status j)) h.few in
          (
            i,
            hi,
            spins_lem s i (thread_of r (status i)) (h.threads i hi)
                ∙ moves r s.sense (status i) h.sense free,
          )
      go (r, inr (k, h)) = (
        k,
        h.inside,
        elim h.closes [
          | inl at ↦ spins_lem s k (closing_at r last) at
          | inr (at, zero_count) ↦ spins_lem s k (closing_at r releasing) at
        ],
      )
