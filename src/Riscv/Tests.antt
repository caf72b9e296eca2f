-- ===== src/Riscv/Tests.antt =====
-- The theorems of am/src/xs and of am/src/nemu/isa/riscv/vme.c at concrete inputs.
use wukong_am.Base.{ℕ, ◌≡◌, ◌≤◌, ◌<◌, ◌+◌, ◌*◌, ◌/◌, ◌^◌, true, arith, some, none, [], ◌∷◌, refl}
use wukong_am.Base.{u64, ◌-◌, ◌==◌, false, if◌then◌else◌}
use wukong_am.Base.Bytes.{write}
use wukong_am.Riscv.Vme.{satp_of, Vm, xs_segments, AddressSpace, new_page, map, vme_init, protect}
use wukong_am.Riscv.Vme.Entry.{entry}
use wukong_am.Riscv.Vme.Table.{IsAllocator}
use wukong_am.Riscv.Vme.Laws.{lookup, add_page, IsSpace, map_lem}
use wukong_am.Riscv.Vme.Segments.{same_page, in_segments, is_segments, count_pages}
use wukong_am.Riscv.Vme.Init.{first_root, vme_init_lem}
use wukong_am.Riscv.Vme.Protect.{protect_lem}
use wukong_am.Riscv.Mpe.{Mpe, turn, started, Reachable, start, then_turn}
use wukong_am.Riscv.Mpe.Laws.{left_le_entered, spins, some_moves}
use wukong_am.Riscv.Cte.{
  Context, default_handler, Cte, cte_init, irq_handle, call_custom, event_yield, event_syscall,
}
use wukong_am.Riscv.Cte.Trap.{irq_handle-cte_init}
use wukong_am.Riscv.Pmp.{napot_address}
use wukong_am.Riscv.Plic.{plic_enable, plic_disable}
use wukong_am.Riscv.Plic.Laws.{enabled, plic_enable_lem}
use wukong_am.Riscv.Pmp.Napot.{covers, napot_address-covers}

-- 4 KiB at 0x80003000.
napot_address-covers_example :
    covers 64 (napot_address 0x80003000 0x1000 / 4) (0x80003ffc / 4) ≡ true
napot_address-covers_example = napot_address-covers 9 0x80003 0x80003ffc (omega arith)

-- Entry 9, locked, for reading and writing, after a start with 31 in its register.
abbrev registers : ℕ → ℕ
registers n = if n == 0x3a2 then 31 else 0

plic_enable_example :
    (enabled (plic_enable (λ i. 0) 1 40) 1 40 ≡ 1) × (enabled (plic_disable (λ i. 0) 1 40) 1 40 ≡ 1)
plic_enable_example = plic_enable_lem (λ i. 0) 1 1 40 40 (omega arith) (omega arith)

-- Pages from 0x80000000 on, and a space without a mapping.
abbrev pages : ℕ → ℕ
pages k = (0x80000 + k) * 4096

pages-IsAllocator : IsAllocator pages 100
pages-IsAllocator = record {
  aligned = λ k h. omega arith;
  bounded = λ k h. omega arith;
  distinct = λ j k h h' e. omega arith;
}

abbrev no_pages : Vm
no_pages = record { mem = λ a. 0; used = 0 }

abbrev first_page : Vm
first_page = (new_page pages no_pages).1

abbrev kernel : AddressSpace
kernel = record { ptr = pages 0 }

kernel-IsSpace : IsSpace pages first_page kernel
kernel-IsSpace = (first_root pages 100 pages-IsAllocator no_pages refl (omega arith)).0

first_page-used : first_page.used ≡ 1
unfolding new_page
first_page-used = refl

map_example :
    (t : Vm) × (map pages kernel 0xc0000000 0x80200000 0xce first_page ≡ some t)
    × IsSpace pages t kernel
    × (t.used ≤ first_page.used + 2)
    × ((va' : ℕ)
        → va' < 2 ^ 39
        → lookup t kernel va'
          ≡ add_page (lookup first_page kernel) 0xc0000000 (entry 0x80200000 0xce) va')
map_example =
    map_lem pages 100 kernel 0xc0000000 0x80200000 0xce first_page pages-IsAllocator kernel-IsSpace
      (omega (arith, first_page-used)) refl (omega arith) refl (omega arith) (omega arith) refl

xs_segments_test : is_segments xs_segments ≡ true
unfolding is_segments
xs_segments_test = refl

vme_init_example :
    (kas : AddressSpace) × (t : Vm) × (vme_init pages ((0x40600000, 0x40601000) ∷ []) no_pages
      ≡ some (kas, t))
    × IsSpace pages t kas
    × ((va : ℕ)
        → va < 2 ^ 39
        → lookup t kas va ≡ (
            if in_segments ((0x40600000, 0x40601000) ∷ []) va
            then some (same_page va, 0)
            else none))
unfolding is_segments count_pages
vme_init_example =
    vme_init_lem pages 100 pages-IsAllocator ((0x40600000, 0x40601000) ∷ []) no_pages refl
      (omega arith) refl

protect_example :
    IsSpace pages (protect pages kernel first_page).1 (protect pages kernel first_page).0
    × IsSpace pages (protect pages kernel first_page).1 kernel
    × ((va : ℕ)
        → va < 2 ^ 39
        → (lookup (protect pages kernel first_page).1 (protect pages kernel first_page).0 va
            ≡ lookup first_page kernel va)
          × (lookup (protect pages kernel first_page).1 kernel va ≡ lookup first_page kernel va))
protect_example =
    protect_lem pages 100 pages-IsAllocator kernel first_page kernel-IsSpace
      (omega (arith, first_page-used))

-- Both of two processors have entered the barrier, and the first has arrived.
abbrev one_arrived : Mpe
one_arrived = turn 2 0 (turn 2 1 (turn 2 0 started))

one_arrived-Reachable : Reachable 2 one_arrived
one_arrived-Reachable =
    then_turn 0 (turn 2 1 (turn 2 0 started)) (omega arith)
      (then_turn 1 (turn 2 0 started) (omega arith) (then_turn 0 started (omega arith) start))

left_le_entered_example : (one_arrived.threads 0).left ≤ (one_arrived.threads 1).entered
left_le_entered_example =
    left_le_entered 2 (omega arith) one_arrived 0 1 (omega arith) one_arrived-Reachable
      (omega arith) (omega arith)

some_moves_example : (i : ℕ) × (i < 2) × (spins one_arrived i ≡ false)
some_moves_example = some_moves 2 (omega arith) one_arrived (omega arith) one_arrived-Reachable

-- The tables before the start, with paging on and a custom handler of system calls that keeps the context.
abbrev traps : Cte
traps = record {
  interrupts = λ i. default_handler;
  exceptions = λ i. default_handler;
  timer = none;
  external = none;
  secall = some 0;
  vme_enable = true;
  satp = satp_of 0x80000000;
}

abbrev caller : Context
caller = record { gpr = λ i. i; scause = 9; sstatus = 0; sepc = 0x80001000 }

abbrev custom : ℕ → ℕ → Context → Context
custom k event c = c

abbrev client : ℕ → ℕ → Context → ℕ × Context
client k event c = (event, c)

irq_handle-cte_init_example :
    irq_handle custom client (cte_init traps) caller
    ≡ some (
      cte_init traps,
      call_custom custom client traps.secall
          (if caller.gpr 17 == 2 ^ 64 - 1 then event_yield else event_syscall)
          (record caller { gpr = write caller.gpr 0 0x80000000; sepc = u64 (caller.sepc + 4) }),
    )
irq_handle-cte_init_example =
    irq_handle-cte_init custom client traps caller 0x80000000 9 false refl refl refl (omega arith)
      (omega arith) refl (omega arith) (λ k event x. refl)
