-- ===== src/Riscv/Mpe/Phases.antt =====
-- Every turn goes from a phase of the barrier to a phase.
use wukong_am.Base.{ℕ, suc, ◌+◌, ◌-◌, ◌%◌, ◌^◌, ◌<◌, ◌≡◌, refl, sym, ap, ◌∙◌, true, false, arith}
use wukong_am.Base.{Bool, Bool-cases, inl, inr, ◌==◌, if◌then◌else◌, of_bool}
use wukong_am.Riscv.Mpe.{
  last, releasing, waiting, Thread, Mpe, set_thread, turn, started, Reachable, start, then_turn,
}
use wukong_am.Riscv.Mpe.Tally.{tally, with_value, tally-with_value, tally_full, tally_none}
use wukong_am.Riscv.Mpe.Barrier.{
  Status, idle, entering, arrived, released, thread_of, closing_at, is_arrived, is_released, IsOpen,
  IsClosing, IsBarrier, set_thread-IsOpen, equal,
}
use wukong_am.Riscv.Mpe.Turns.{
  set_thread_at, set_thread_other, turn_idle, turn_arrives, turn_last, turn_resets, turn_releases,
  turn_spins, turn_leaves,
}

module _ (ncpu : ℕ) (small : ncpu < 2 ^ 64) where
  -- A turn that leaves the barrier open.
  still_open :
      (s u : Mpe) (r i : ℕ) (status : ℕ → Status) (old new : Status)
      → i < ncpu
      → IsOpen ncpu s r status
      → status i ≡ old
      → u.sense ≡ s.sense
      → u.threads ≡ s.threads
      → u.count + of_bool (is_arrived old) ≡ s.count + of_bool (is_arrived new)
      → s.count + of_bool (is_arrived new) < ncpu + of_bool (is_arrived old)
      → (is_released new ≡ true → 0 < r)
      → IsBarrier ncpu (set_thread u i (thread_of r new))
  unfolding set_thread
  still_open s u r i status old new hi h was sense same count few later =
      let t = set_thread u i (thread_of r new) in
      let arr : of_bool (is_arrived (status i)) ≡ of_bool (is_arrived old) =
        ap (λ x. of_bool (is_arrived x)) was in
      (
        r,
        inl (
          (λ j. if j == i then new else status j),
          set_thread-IsOpen ncpu s t r i status new hi h sense
              (λ j other.
                set_thread_other u i j (thread_of r new) other ∙ ap (λ (f : ℕ → Thread). f j) same)
              (set_thread_at u i (thread_of r new)) (omega (arith, arr)) (omega (arith, arr)) later,
        ),
      )

  -- The last arrival closes it.
  closes_now :
      (s : Mpe) (r i : ℕ) (status : ℕ → Status)
      → i < ncpu
      → IsOpen ncpu s r status
      → status i ≡ entering
      → (s.count == ncpu - 1) ≡ true
      → IsBarrier ncpu (set_thread (record s { count = s.count + 1 }) i (closing_at r last))
  unfolding set_thread
  closes_now s r i status hi h was full =
      let u : Mpe = record s { count = s.count + 1 } in
      let counted = h.count in
      let sum = tally-with_value ncpu (λ j. is_arrived (status j)) i true hi in
      let none_here : of_bool (is_arrived (status i)) ≡ 0 = ap (λ x. of_bool (is_arrived x)) was in
      let all : tally ncpu (with_value (λ j. is_arrived (status j)) i true) ≡ ncpu =
        ground (arith, sum, none_here) in
      (
        r,
        inr (
          i,
          record {
            sense = h.sense;
            inside = hi;
            closes = inl (set_thread_at u i (closing_at r last));
            threads = λ j hj other.
                let at : is_arrived (status j) ≡ true =
                  sym (ap (λ b. if b then true else is_arrived (status j)) other)
                  ∙ tally_full ncpu (with_value (λ k. is_arrived (status k)) i true) j all hj in
                set_thread_other u i j (closing_at r last) other
                ∙ h.threads j hj
                ∙ ap (thread_of r) (is_arrived_lem (status j) at);
          },
        ),
      )
    where
      is_arrived_lem : (x : Status) → is_arrived x ≡ true → x ≡ arrived
      is_arrived_lem idle e = absurd (ground (arith, e))
      is_arrived_lem entering e = absurd (ground (arith, e))
      is_arrived_lem arrived e = refl
      is_arrived_lem released e = absurd (ground (arith, e))

  -- A turn while the barrier is open.
  open_turn :
      (s : Mpe) (r i : ℕ) (status : ℕ → Status) (now : Status)
      → i < ncpu
      → IsOpen ncpu s r status
      → status i ≡ now
      → IsBarrier ncpu (turn ncpu i s)
  open_turn s r i status idle hi h was =
      let few = h.few in
      let counted = h.count in
      rw (turn_idle ncpu i s r (h.threads i hi ∙ ap (thread_of r) was)) (
        still_open s s r i status idle entering hi h was refl refl refl (omega arith)
          (λ e. absurd (ground (arith, e))))
  open_turn s r i status entering hi h was =
      let few = h.few in
      let counted = h.count in
      let at = h.threads i hi ∙ ap (thread_of r) was in
      elim (Bool-cases (s.count == ncpu - 1)) [
        | inl full ↦
            rw (turn_last ncpu i s r at (omega arith) full) (closes_now s r i status hi h was full)
        | inr more ↦ rw (turn_arrives ncpu i s r at (omega arith) more) (
            still_open s (record s { count = s.count + 1 }) r i status entering arrived hi h was
              refl refl (omega arith) (ground arith) (λ e. absurd (ground (arith, e))))
      ]
  open_turn s r i status arrived hi h was =
      rw (turn_spins ncpu i s r (h.threads i hi ∙ ap (thread_of r) was) h.sense)
        (r, inl (status, h))
  open_turn s r i status released hi h was =
      let few = h.few in
      let counted = h.count in
      rw
        (turn_leaves ncpu i s r (h.threads i hi ∙ ap (thread_of r) was) h.sense
          (h.later i hi (ap is_released was)))
        (still_open s s r i status released idle hi h was refl refl refl (omega arith)
          (λ e. absurd (ground (arith, e))))

  with_left : ℕ → ℕ → Thread
  with_left q n = record { location = waiting; threadsense = suc q % 2; entered = suc q; left = n }

  -- The last processor opens it again for the next round.
  opens_next :
      (s : Mpe) (r i : ℕ)
      → IsClosing ncpu s r i
      → s.count ≡ 0
      → IsBarrier ncpu (set_thread (record s { sense = suc r % 2 }) i (thread_of (suc r) idle))
  unfolding set_thread with_left
  opens_next s r i h zero_count =
      let u : Mpe = record s { sense = suc r % 2 } in
      let status : ℕ → Status = λ j. if j == i then idle else released in
      let nobody = tally_none ncpu (λ j. is_arrived (status j)) (λ j hj. not_arrived (j == i)) in
      let inside = h.inside in
      (
        suc r,
        inl (
          status,
          record {
            sense = refl;
            threads = λ j hj. elim (Bool-cases (j == i)) [
              | inl here ↦ rw here refl
              | inr other ↦ rw other (h.threads j hj other ∙ next_round r)
            ];
            count = zero_count ∙ sym nobody;
            few = omega (arith, nobody);
            later = λ j hj e. omega arith;
          },
        ),
      )
    where
      not_arrived : (b : Bool) → is_arrived (if b then idle else released) ≡ false
      not_arrived true = refl
      not_arrived false = refl

      next_round : (q : ℕ) → thread_of q arrived ≡ thread_of (suc q) released
      next_round q = let less : q ≡ suc q - 1 = omega arith in ap (with_left q) less

  -- A turn of the last processor.
  closing_turn : (s : Mpe) (r i : ℕ) → IsClosing ncpu s r i → IsBarrier ncpu (turn ncpu i s)
  unfolding set_thread
  closing_turn s r i h = elim h.closes [
    | inl at ↦
        let u : Mpe = record s { count = 0 } in
        rw (turn_resets ncpu i s r at) (
          r,
          inr (
            i,
            record {
              sense = h.sense;
              inside = h.inside;
              closes = inr (set_thread_at u i (closing_at r releasing), refl);
              threads = λ j hj other.
                  set_thread_other u i j (closing_at r releasing) other ∙ h.threads j hj other;
            },
          ),
        )
    | inr (at, zero_count) ↦ rw (turn_releases ncpu i s r at) (opens_next s r i h zero_count)
  ]

  turn-IsBarrier : (s : Mpe) (i : ℕ) → i < ncpu → IsBarrier ncpu s → IsBarrier ncpu (turn ncpu i s)
  turn-IsBarrier s i hi (r, inl (status, h)) = open_turn s r i status (status i) hi h refl
  turn-IsBarrier s i hi (r, inr (k, h)) = elim (Bool-cases (i == k)) [
    | inl here ↦ let e = equal i k here in rw e (closing_turn s r k h)
    | inr other ↦ rw (turn_spins ncpu i s r (h.threads i hi other) h.sense) (r, inr (k, h))
  ]

  pub Reachable-IsBarrier : (s : Mpe) → 0 < ncpu → Reachable ncpu s → IsBarrier ncpu s
  unfolding started
  Reachable-IsBarrier s pos start =
      let nobody = tally_none ncpu (λ j. false) (λ j hj. refl) in
      (
        0,
        inl (
          (λ i. idle),
          record {
            sense = refl;
            threads = λ i hi. refl;
            count = sym nobody;
            few = omega (arith, nobody);
            later = λ i hi e. absurd (ground (arith, e));
          },
        ),
      )
  Reachable-IsBarrier t pos (then_turn i s hi before) =
      turn-IsBarrier s i hi (Reachable-IsBarrier s pos before)
