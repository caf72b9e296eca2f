-- ===== src/Riscv/Cte.antt =====
-- am/src/nemu/isa/riscv/cte.c: the dispatch of traps, with `__am_get_cur_as` and `__am_switch` of vme.c,
-- for 64 bits. Handlers of other code are known by a number; what they do to the context is a
-- parameter: `custom` for the custom handlers, `client` for those of `irq_handler_reg`.
pub mod Laws
pub mod Trap
use wukong_am.Base.{ℕ, zero, suc, ◌+◌, ◌-◌, ◌*◌, ◌/◌, ◌^◌, Bool, not, ◌&&◌, ◌||◌, ◌==◌, ltb, truthy}
use wukong_am.Base.{Option, none, some, if◌then◌else◌, bit_and, u64, ◌<<<◌, ◌>>>◌}
use wukong_am.Base.Bytes.{Array, write}
use wukong_am.Riscv.Vme.{satp_of, get_satp}

-- `pdir` is in a union with `gpr`, as its first register.
pub record Context : Type 0 where
  pub gpr : Array
  pub scause : ℕ
  pub sstatus : ℕ
  pub sepc : ℕ

abbrev pub pdir : Context → ℕ
pdir c = c.gpr 0

pub data Handler : Type 0 where
  default_handler : Handler
  stip_handler : Handler
  seip_handler : Handler
  secall_handler : Handler
  other_handler : ℕ → Handler

-- The handler tables, the custom handlers, and the register satp.
pub record Cte : Type 0 where
  pub interrupts : ℕ → Handler
  pub exceptions : ℕ → Handler
  pub timer : Option ℕ
  pub external : Option ℕ
  pub secall : Option ℕ
  pub vme_enable : Bool
  pub satp : ℕ

abbrev pub event_null : ℕ
event_null = 0

abbrev pub event_irq_timer : ℕ
event_irq_timer = 2

abbrev pub event_irq_iodev : ℕ
event_irq_iodev = 3

abbrev pub event_syscall : ℕ
event_syscall = 5

abbrev pub event_yield : ℕ
event_yield = 6

abbrev pub intr_bit : ℕ
intr_bit = 2 ^ 63

pub get_cur_as : Cte → Context → Context
get_cur_as s c = record c { gpr = write c.gpr 0 (if s.vme_enable then get_satp s.satp else 0) }

pub switch : Cte → Context → Cte
switch s c = if s.vme_enable && not (pdir c == 0) then record s { satp = satp_of (pdir c) } else s

-- The handler that `__am_irq_handle` calls; `none` is a failed assertion.
pub selected : Cte → ℕ → Option Handler
selected s scause =
    let code = bit_and scause 0x7fff in
    if ltb code 16
    then some (if truthy (bit_and scause intr_bit) then s.interrupts code else s.exceptions code)
    else none

module _ (custom : ℕ → ℕ → Context → Context) (client : ℕ → ℕ → Context → ℕ × Context) where
  unfoldable pub call_custom : Option ℕ → ℕ → Context → Context
  call_custom none event c = c
  call_custom (some k) event c = custom k event c

  -- A handler with the event and the context; `none` is a halt.
  unfoldable pub handle : Handler → Cte → ℕ → Context → Option (ℕ × Context)
  handle default_handler s event c = none
  handle stip_handler s event c = some (event_irq_timer, call_custom s.timer event_irq_timer c)
  handle seip_handler s event c = some (event_irq_iodev, call_custom s.external event_irq_iodev c)
  handle secall_handler s event c =
      let event = if c.gpr 17 == 2 ^ 64 - 1 then event_yield else event_syscall in
      some (event, call_custom s.secall event (record c { sepc = u64 (c.sepc + 4) }))
  handle (other_handler k) s event c = some (client k event c)

  unfoldable pub irq_handle : Cte → Context → Option (Cte × Context)
  irq_handle s c0 =
      let c = get_cur_as s c0 in
      elim (selected s c.scause) [
        | none ↦ none
        | some h ↦ elim (handle h s event_null c) [
          | none ↦ none
          | some (event, c') ↦ some (switch s c', c')
        ]
      ]

-- The switch of `custom_handler_reg`; `none` is a halt.
pub custom_handler_reg : ℕ → ℕ → Cte → Option Cte
custom_handler_reg code k s =
    if (code == intr_bit + 1) || (code == intr_bit + 5)
    then some (record s { timer = some k })
    else if code == intr_bit + 9
    then some (record s { external = some k })
    else if code == 9
    then some (record s { secall = some k })
    else none

abbrev set_handler : (ℕ → Handler) → ℕ → Handler → ℕ → Handler
set_handler f i h j = if j == i then h else f j

pub irq_handler_reg : ℕ → Handler → Cte → Option Cte
irq_handler_reg code h s =
    let offset = u64 (code <<< 1) >>> 1 in
    if ltb offset 16
    then some (
        if truthy (bit_and code intr_bit)
        then record s { interrupts = set_handler s.interrupts offset h }
        else record s { exceptions = set_handler s.exceptions offset h })
    else none

-- The tables that `_cte_init` fills.
pub cte_init : Cte → Cte
cte_init s = record s {
  interrupts = set_handler (set_handler (λ i. default_handler) 1 stip_handler) 9 seip_handler;
  exceptions = set_handler (λ i. default_handler) 9 secall_handler;
}
