-- ===== src/Riscv/Mpe/Turns.antt =====
-- The turns of a processor whose thread is known.
use wukong_am.Base.{ℕ, suc, ◌+◌, ◌-◌, ◌%◌, ◌^◌, ◌<◌, ◌≡◌, refl, ap, ◌∙◌, true, false, arith}
use wukong_am.Base.{◌==◌, if◌then◌else◌, u64}
use wukong_am.Riscv.Mpe.{
  outside, counting, last, releasing, waiting, Thread, Mpe, set_thread, turn_at, turn, negated,
  atomic_add,
}
use wukong_am.Riscv.Mpe.Barrier.{idle, entering, arrived, released, thread_of, closing_at}

pub set_thread_at : (s : Mpe) (i : ℕ) (t : Thread) → (set_thread s i t).threads i ≡ t
unfolding set_thread
set_thread_at s i t = let e : (i == i) ≡ true = ground arith in rw e refl

pub set_thread_other :
    (s : Mpe) (i j : ℕ) (t : Thread) → (j == i) ≡ false → (set_thread s i t).threads j ≡ s.threads j
unfolding set_thread
set_thread_other s i j t h = rw h refl

module _ (ncpu i : ℕ) (s : Mpe) where
  turn_with : (t : Thread) → s.threads i ≡ t → turn ncpu i s ≡ turn_at t.location ncpu i s
  unfolding turn
  turn_with t e = ap (λ (x : Thread). turn_at x.location ncpu i s) e

  pub turn_idle :
      (r : ℕ)
      → s.threads i ≡ thread_of r idle
      → turn ncpu i s ≡ set_thread s i (thread_of r entering)
  unfolding turn_at negated
  turn_idle r e =
      turn_with (thread_of r idle) e
      ∙ ap
          (λ (x : Thread). set_thread s i (record x {
            location = counting;
            threadsense = negated x.threadsense;
            entered = x.entered + 1;
          }))
          e
      ∙ ap
          (λ b.
            set_thread s i
              (record { location = counting; threadsense = b; entered = r + 1; left = r }))
          (flips r)
      ∙ ap
          (λ n.
            set_thread s i
              (record { location = counting; threadsense = suc r % 2; entered = n; left = r }))
          (more r)
    where
      more : (r : ℕ) → r + 1 ≡ suc r
      more r = omega arith

      flips : (r : ℕ) → negated (r % 2) ≡ suc r % 2
      flips r = ground arith

  -- The addition, where the count stays below 2 ^ 64.
  turn_counts :
      (r : ℕ)
      → s.threads i ≡ thread_of r entering
      → s.count + 1 < 2 ^ 64
      → turn ncpu i s
        ≡ set_thread
            (record s { count = s.count + 1 })
            i
            (record {
              location = (if s.count == ncpu - 1 then last else waiting);
              threadsense = suc r % 2;
              entered = suc r;
              left = r;
            })
  unfolding turn_at atomic_add
  turn_counts r e h =
      let fits : u64 (s.count + 1) ≡ s.count + 1 = omega arith in
      turn_with (thread_of r entering) e
      ∙ ap
          (λ (x : Thread).
            set_thread (record s { count = u64 (s.count + 1) }) i
              (record x { location = (if s.count == ncpu - 1 then last else waiting) }))
          e
      ∙ ap
          (λ n.
            set_thread (record s { count = n }) i
              (record {
                location = (if s.count == ncpu - 1 then last else waiting);
                threadsense = suc r % 2;
                entered = suc r;
                left = r;
              }))
          fits

  pub turn_arrives :
      (r : ℕ)
      → s.threads i ≡ thread_of r entering
      → s.count + 1 < 2 ^ 64
      → (s.count == ncpu - 1) ≡ false
      → turn ncpu i s ≡ set_thread (record s { count = s.count + 1 }) i (thread_of r arrived)
  turn_arrives r e h k =
      turn_counts r e h
      ∙ ap
          (λ b.
            set_thread (record s { count = s.count + 1 }) i
              (closing_at r (if b then last else waiting)))
          k

  pub turn_last :
      (r : ℕ)
      → s.threads i ≡ thread_of r entering
      → s.count + 1 < 2 ^ 64
      → (s.count == ncpu - 1) ≡ true
      → turn ncpu i s ≡ set_thread (record s { count = s.count + 1 }) i (closing_at r last)
  turn_last r e h k =
      turn_counts r e h
      ∙ ap
          (λ b.
            set_thread (record s { count = s.count + 1 }) i
              (closing_at r (if b then last else waiting)))
          k

  pub turn_resets :
      (r : ℕ)
      → s.threads i ≡ closing_at r last
      → turn ncpu i s ≡ set_thread (record s { count = 0 }) i (closing_at r releasing)
  unfolding turn_at
  turn_resets r e =
      turn_with (closing_at r last) e
      ∙ ap
          (λ (x : Thread).
            set_thread (record s { count = 0 }) i (record x { location = releasing }))
          e

  pub turn_releases :
      (r : ℕ)
      → s.threads i ≡ closing_at r releasing
      → turn ncpu i s ≡ set_thread (record s { sense = suc r % 2 }) i (thread_of (suc r) idle)
  unfolding turn_at
  turn_releases r e =
      turn_with (closing_at r releasing) e
      ∙ ap
          (λ (x : Thread).
            set_thread (record s { sense = x.threadsense }) i
              (record x { location = outside; left = x.left + 1 }))
          e
      ∙ ap
          (λ n.
            set_thread (record s { sense = suc r % 2 }) i
              (record { location = outside; threadsense = suc r % 2; entered = suc r; left = n }))
          (omega arith)

  -- The loop, where `sense` is the round's.
  pub turn_spins : (r : ℕ) → s.threads i ≡ thread_of r arrived → s.sense ≡ r % 2 → turn ncpu i s ≡ s
  unfolding turn_at
  turn_spins r e h =
      let sense : (s.threads i).threadsense ≡ suc r % 2 = ap (λ (x : Thread). x.threadsense) e in
      let apart : (s.sense == (s.threads i).threadsense) ≡ false = ground (arith, h, sense) in
      turn_with (thread_of r arrived) e ∙ rw apart refl

  pub turn_leaves :
      (r : ℕ)
      → s.threads i ≡ thread_of r released
      → s.sense ≡ r % 2
      → 0 < r
      → turn ncpu i s ≡ set_thread s i (thread_of r idle)
  unfolding turn_at
  turn_leaves r e h pos =
      let sense : (s.threads i).threadsense ≡ r % 2 = ap (λ (x : Thread). x.threadsense) e in
      let same : (s.sense == (s.threads i).threadsense) ≡ true = ground (arith, h, sense) in
      let leaves : turn_at waiting ncpu i s
          ≡ set_thread s i
              (record (s.threads i) { location = outside; left = (s.threads i).left + 1 }) =
        rw same refl in
      turn_with (thread_of r released) e
      ∙ leaves
      ∙ ap (λ (x : Thread). set_thread s i (record x { location = outside; left = x.left + 1 })) e
      ∙ ap
          (λ n.
            set_thread s i
              (record { location = outside; threadsense = r % 2; entered = r; left = n }))
          (omega arith)
