-- ===== src/LiteNes/Cpu/Run/Laws.antt =====
-- How the loop of `cpu_run` ends, and the opcodes at which it does not.
use wukong_am.Base.{ℕ, zero, suc, ◌+◌, ◌-◌, ◌/◌, ◌≤◌, ◌<◌, ◌≡◌, refl}
use wukong_am.Base.{false, none, some, arith, ◌==◌, Bool-cases, inl, inr, if◌then◌else◌}
use wukong_am.LiteNes.Machine.{Nes, IsNes}
use wukong_am.LiteNes.Memory.Range.{memory_readb-IsRead}
use wukong_am.LiteNes.Memory.Laws.{memory_readb-keeps}
use wukong_am.LiteNes.Cpu.Stack.{set_pc}
use wukong_am.LiteNes.Cpu.Stack.Range.{set_pc-IsNes}
use wukong_am.LiteNes.Cpu.Table.{Entry, cpu_op_table}
use wukong_am.LiteNes.Cpu.Table.Laws.{cpu_op_table-cycles}
use wukong_am.LiteNes.Cpu.Run.{fetch, execute, charge, cpu_step, run_loop, cpu_run}
use wukong_am.LiteNes.Cpu.Run.Range.{cpu_step-IsNes, cpu_run-IsNes}

-- The opcode of the next round has a row.
abbrev pub HasRow : Nes → Type 0
HasRow s = (e : Entry) × (cpu_op_table (fetch s).0 ≡ some e)

-- So has every opcode that the loop meets, in at most `fuel` rounds, before `cycles` are used up.
unfoldable pub AllSet : ℕ → ℕ → Nes → Type 0
AllSet zero cycles s = Unit
AllSet (suc fuel) cycles s =
    let rest = AllSet fuel (cycles - (cpu_step s).0) (cpu_step s).1 in
    if cycles == 0 then Unit else HasRow s × rest

fetch-lt : {s : Nes} → IsNes s → (fetch s).0 < 256
unfolding fetch
fetch-lt {s} h = (memory_readb-IsRead s.cpu.pc (set_pc-IsNes (s.cpu.pc + 1) h)).0

-- A round at a set opcode takes at least one cycle.
cpu_step_pos : (s : Nes) → IsNes s → HasRow s → 1 ≤ (cpu_step s).0
unfolding cpu_step execute
cpu_step_pos s h (e, row) =
    let cost = cpu_op_table-cycles (fetch s).0 (fetch-lt h) row in rw row (omega (arith, cost))

run_loop_ends :
    (fuel cycles : ℕ) (s : Nes)
    → IsNes s
    → AllSet fuel cycles s
    → cycles < fuel
    → (t : Nes) × (run_loop fuel cycles s ≡ some t)
unfolding run_loop AllSet
run_loop_ends zero cycles s h set enough = absurd (omega arith)
run_loop_ends (suc fuel) cycles s h set enough = elim (Bool-cases (cycles == 0)) [
  | inl stop ↦ (s, rw stop)
  | inr more ↦
      let (row, rest) = rw more at set in
      let used = cpu_step_pos s h row in
      let left : cycles - (cpu_step s).0 < fuel = ground (arith, used) in
      rw more
        (run_loop_ends fuel (cycles - (cpu_step s).0) (cpu_step s).1 (cpu_step-IsNes h) rest left)
]

-- On more than `cycles / 3` fuel, `cpu_run` ends, with a machine in range, if it starts in range and
-- every opcode that it meets until its cycles are used up has a row in the instruction table.
pub cpu_run_ends :
    (fuel cycles : ℕ) (s : Nes)
    → IsNes s
    → AllSet fuel (cycles / 3) s
    → cycles / 3 < fuel
    → (t : Nes) × (cpu_run fuel cycles s ≡ some t) × IsNes t
unfolding cpu_run
cpu_run_ends fuel cycles s h set enough =
    let (t, e) = run_loop_ends fuel (cycles / 3) s h set enough in
    (t, e, cpu_run-IsNes fuel cycles h (unfold cpu_run in e))

-- The opcodes of the next `rounds` rounds have no row.
abbrev pub AllUnset : ℕ → Nes → Type 0
AllUnset zero s = Unit
AllUnset (suc rounds) s = (cpu_op_table (fetch s).0 ≡ none) × AllUnset rounds (cpu_step s).1

-- A round at an unset opcode takes no cycle.
cpu_step-unset :
    (s : Nes)
    → cpu_op_table (fetch s).0 ≡ none
    → s.op_cycles ≡ 0
    → ((cpu_step s).0 ≡ 0) × ((cpu_step s).1.op_cycles ≡ 0)
unfolding cpu_step execute charge
cpu_step-unset s row zero_cycles =
    let kept : (fetch s).1.op_cycles ≡ s.op_cycles =
      unfold fetch set_pc in (memory_readb-keeps (set_pc (s.cpu.pc + 1) s) s.cpu.pc).2 in
    (rw row (omega arith), refl)

run_loop-stuck :
    (n cycles : ℕ) (s : Nes)
    → AllUnset n s
    → s.op_cycles ≡ 0
    → 1 ≤ cycles
    → run_loop n cycles s ≡ none
unfolding run_loop
run_loop-stuck zero cycles s unset idle more = refl
run_loop-stuck (suc n) cycles s unset idle more =
    let round = cpu_step-unset s unset.0 idle in
    let same : cycles - (cpu_step s).0 ≡ cycles = omega (arith, round.0) in
    let running : (cycles == 0) ≡ false = ground arith in
    rw (running, same) (run_loop-stuck n cycles (cpu_step s).1 unset.1 round.1 more)

-- Opcodes without a row take no cycles: as long as the program meets only these, and no additional
-- cycles were left over, `cpu_run` does not end, however many cycles were asked for, from 3 on.
pub cpu_run-stuck :
    (fuel cycles : ℕ) (s : Nes)
    → AllUnset fuel s
    → s.op_cycles ≡ 0
    → 3 ≤ cycles
    → cpu_run fuel cycles s ≡ none
unfolding cpu_run
cpu_run-stuck fuel cycles s unset idle some_left =
    run_loop-stuck fuel (cycles / 3) s unset idle (omega arith)
