-- ===== src/Riscv/Mpe.antt =====
-- am/src/xs/isa/riscv/mpe.c: the atomic instructions and the barrier of the processors. Each processor
-- runs `_barrier` in turns that read or write one shared variable; `entered` and `left` count its
-- calls and returns. The static variables `sense` and `count` are fields of the state.
pub mod Tally
pub mod Barrier
pub mod Turns
pub mod Phases
pub mod Laws
use wukong_am.Base.{ℕ, ◌+◌, ◌-◌, ◌==◌, if◌then◌else◌, u64, ◌<◌}

-- The result, and the new value of the variable.
pub atomic_add : ℕ → ℕ → ℕ × ℕ
atomic_add value adder = (value, u64 (value + adder))

pub atomic_xchg : ℕ → ℕ → ℕ × ℕ
atomic_xchg value newval = (value, newval)

-- Where a processor is in `_barrier`: before the call, before the addition, before `count = 0`,
-- before `sense = threadsense`, and in the loop.
pub data Location : Type 0 where
  outside : Location
  counting : Location
  last : Location
  releasing : Location
  waiting : Location

pub record Thread : Type 0 where
  pub location : Location
  pub threadsense : ℕ
  pub entered : ℕ
  pub left : ℕ

pub record Mpe : Type 0 where
  pub sense : ℕ
  pub count : ℕ
  pub threads : ℕ → Thread

pub set_thread : Mpe → ℕ → Thread → Mpe
set_thread s i t = record s { threads = λ j. if j == i then t else s.threads j }

-- `!x`
pub negated : ℕ → ℕ
negated x = if x == 0 then 1 else 0

-- A turn of processor `i` of `ncpu`, from a location.
pub turn_at : Location → ℕ → ℕ → Mpe → Mpe
turn_at outside ncpu i s =
    let t = s.threads i in
    set_thread s i (record t {
      location = counting;
      threadsense = negated t.threadsense;
      entered = t.entered + 1;
    })
turn_at counting ncpu i s =
    let (result, count) = atomic_add s.count 1 in
    set_thread (record s { count = count }) i
      (record (s.threads i) { location = (if result == ncpu - 1 then last else waiting) })
turn_at last ncpu i s =
    set_thread (record s { count = 0 }) i (record (s.threads i) { location = releasing })
turn_at releasing ncpu i s =
    let t = s.threads i in
    set_thread (record s { sense = t.threadsense }) i
      (record t { location = outside; left = t.left + 1 })
turn_at waiting ncpu i s =
    let t = s.threads i in
    if s.sense == t.threadsense
    then set_thread s i (record t { location = outside; left = t.left + 1 })
    else s

pub turn : ℕ → ℕ → Mpe → Mpe
turn ncpu i s = turn_at (s.threads i).location ncpu i s

-- The static variables at the start.
pub started : Mpe
started = record {
  sense = 0;
  count = 0;
  threads = λ i. record { location = outside; threadsense = 0; entered = 0; left = 0 };
}

-- The states that turns of the processors reach, in any order.
pub data Reachable (ncpu : ℕ) : Mpe → Type 0 where
  start : Reachable ncpu started
  then_turn : (i : ℕ) (s : Mpe) → i < ncpu → Reachable ncpu s → Reachable ncpu (turn ncpu i s)
