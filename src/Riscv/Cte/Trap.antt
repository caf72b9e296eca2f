-- ===== src/Riscv/Cte/Trap.antt =====
-- What a trap does on the tables that `_cte_init` fills.
use wukong_am.Base.{ℕ, ◌+◌, ◌-◌, ◌%◌, ◌^◌, ◌<◌, ◌≡◌, refl, sym, ap, ◌∙◌, true, false, arith}
use wukong_am.Base.{Bool, Bool-cases, inl, inr, ◌==◌, ltb, if◌then◌else◌, Option, none, some, u64}
use wukong_am.Base.Bytes.{write}
use wukong_am.Riscv.Vme.{satp_of, get_satp}
use wukong_am.Riscv.Cte.{
  Context, pdir, Handler, default_handler, stip_handler, seip_handler, secall_handler, Cte,
  selected, irq_handle, handle, call_custom, switch, get_cur_as, cte_init, event_irq_timer,
  event_irq_iodev, event_yield, event_syscall,
}
use wukong_am.Riscv.Cte.Laws.{cause, selected-cause, get_satp-satp_of}

module _ (custom : ℕ → ℕ → Context → Context) (client : ℕ → ℕ → Context → ℕ × Context) where
  -- `__am_irq_handle` from the context with its address space on, by the handler.
  dispatched : Cte → Context → Option Handler → Option (Cte × Context)
  dispatched s c o = elim o [
    | none ↦ none
    | some h ↦ elim (handle custom client h s 0 c) [
      | none ↦ none
      | some (event, c') ↦ some (switch s c', c')
    ]
  ]

  irq_handle-dispatched :
      (s : Cte) (c : Context)
      → irq_handle custom client s c
        ≡ dispatched s (get_cur_as s c) (selected s (get_cur_as s c).scause)
  unfolding irq_handle dispatched
  irq_handle-dispatched s c = refl

  call_custom-pdir :
      (o : Option ℕ) (event : ℕ) (c : Context)
      → ((k event : ℕ) (x : Context) → pdir (custom k event x) ≡ pdir x)
      → pdir (call_custom custom client o event c) ≡ pdir c
  unfolding call_custom
  call_custom-pdir none event c keeps = refl
  call_custom-pdir (some k) event c keeps = keeps k event c

switch-same :
    (s : Cte) (c : Context) (root : ℕ)
    → s.vme_enable ≡ true
    → s.satp ≡ satp_of root
    → 0 < root
    → pdir c ≡ root
    → switch s c ≡ s
unfolding switch
switch-same s c root on satp pos e =
    let not_null : (pdir c == 0) ≡ false = ground arith in
    let kept : satp_of (pdir c) ≡ s.satp = ap satp_of e ∙ sym satp in
    rw (on, not_null) (ap (λ x. record s { satp = x; vme_enable = true }) kept)

get_cur_as_lem :
    (s : Cte) (c : Context) (root : ℕ)
    → s.vme_enable ≡ true
    → get_satp s.satp ≡ root
    → get_cur_as s c ≡ record c { gpr = write c.gpr 0 root }
unfolding get_cur_as
get_cur_as_lem s c root on e = rw on (ap (λ x. record c { gpr = write c.gpr 0 x }) e)

-- The handler of each place in the tables.
handler_at : Bool → ℕ → Option Handler
handler_at true j =
    if j == 1
    then some stip_handler
    else if j == 9
    then some seip_handler
    else if ltb j 16
    then some default_handler
    else none
handler_at false j =
    if j == 9 then some secall_handler else if ltb j 16 then some default_handler else none

selected-cte_init :
    (s : Cte) (b : Bool) (code : ℕ)
    → code < 2 ^ 63
    → selected (cte_init s) (cause b code) ≡ handler_at b (code % 2 ^ 15)
unfolding cte_init handler_at
selected-cte_init s b code h = selected-cause (cte_init s) b code h ∙ go b (code % 2 ^ 15)
  where
    go :
        (b : Bool) (j : ℕ)
        → (if ltb j 16
            then some (if b then (cte_init s).interrupts j else (cte_init s).exceptions j)
            else none)
          ≡ handler_at b j
    go true j = ground arith
    go false j = ground arith

-- The end of a trap on the tables that `_cte_init` fills, with paging on, the table at a page-aligned
-- `root` that is not 0 and below 2 ^ 56, custom handlers that keep `pdir`, and a cause that is an
-- interrupt or an exception with a code below 2 ^ 63, of which the low 15 bits count. Interrupt 1 is
-- the timer's: its custom handler gets the event and the context with its address space. Interrupt 9
-- is the devices', in the same way. Exception 9 is a system call: the context goes on behind the
-- instruction, and the event is a yield if a7 is -1 and a system call otherwise. In these three cases
-- the tables and satp stay as they were. Every other cause ends the program.
pub irq_handle-cte_init :
    (custom : ℕ → ℕ → Context → Context) (client : ℕ → ℕ → Context → ℕ × Context) (s : Cte)
    (c : Context) (root code : ℕ) (b : Bool)
    → s.vme_enable ≡ true
    → s.satp ≡ satp_of root
    → root % 4096 ≡ 0
    → 0 < root
    → root < 2 ^ 56
    → c.scause ≡ cause b code
    → code < 2 ^ 63
    → ((k event : ℕ) (x : Context) → pdir (custom k event x) ≡ pdir x)
    → (let x : Context = record c { gpr = write c.gpr 0 root } in
        let j = code % 2 ^ 15 in
        irq_handle custom client (cte_init s) c ≡ (
          if b
          then if j == 1
            then some (cte_init s, call_custom custom client s.timer event_irq_timer x)
            else if j == 9
            then some (cte_init s, call_custom custom client s.external event_irq_iodev x)
            else none
          else if j == 9
          then some (
            cte_init s,
            call_custom custom client s.secall
                (if c.gpr 17 == 2 ^ 64 - 1 then event_yield else event_syscall)
                (record x { sepc = u64 (c.sepc + 4) }),
          )
          else none))
unfolding dispatched handle handler_at cte_init
irq_handle-cte_init custom client s c root code b on satp a pos h is_cause fits keeps =
    let space = get_cur_as_lem t c root on (ap get_satp satp ∙ get_satp-satp_of root a h) in
    let chosen : selected t c.scause ≡ handler_at b (code % 2 ^ 15) =
      ap (selected t) is_cause ∙ selected-cte_init s b code fits in
    irq_handle-dispatched custom client t c
    ∙ ap (λ (y : Context). dispatched custom client t y (selected t y.scause)) space
    ∙ ap (dispatched custom client t x) chosen
    ∙ go b (code % 2 ^ 15)
  where
    t : Cte
    t = cte_init s

    x : Context
    x = record c { gpr = write c.gpr 0 root }

    y : Context
    y = record x { sepc = u64 (c.sepc + 4) }

    kept :
        (o : Option ℕ) (event : ℕ) (d : Context)
        → pdir d ≡ root
        → ◌≡◌ {A = Option (Cte × Context)}
            (some
              (switch t (call_custom custom client o event d), call_custom custom client o event d))
            (some (t, call_custom custom client o event d))
    kept o event d e =
        ap {B = Option (Cte × Context)} (λ (u : Cte). some (u, call_custom custom client o event d))
          (switch-same t (call_custom custom client o event d) root on satp pos
            (call_custom-pdir custom client o event d keeps ∙ e))

    yielded : ℕ
    yielded = if c.gpr 17 == 2 ^ 64 - 1 then event_yield else event_syscall

    go :
        (b : Bool) (j : ℕ)
        → dispatched custom client t x (handler_at b j) ≡ (
            if b
            then if j == 1
              then some (t, call_custom custom client s.timer event_irq_timer x)
              else if j == 9
              then some (t, call_custom custom client s.external event_irq_iodev x)
              else none
            else if j == 9
            then some (t, call_custom custom client s.secall yielded y)
            else none)
    go true j = elim (Bool-cases (j == 1)) [
      | inl one ↦ rw one (kept s.timer event_irq_timer x refl)
      | inr other ↦ elim (Bool-cases (j == 9)) [
        | inl nine ↦ rw (other, nine) (kept s.external event_irq_iodev x refl)
        | inr rest ↦ elim (Bool-cases (ltb j 16)) [
          | inl low ↦ rw (other, rest, low) refl
          | inr high ↦ rw (other, rest, high) refl
        ]
      ]
    ]
    go false j = elim (Bool-cases (j == 9)) [
      | inl nine ↦ rw nine (kept s.secall yielded y refl)
      | inr rest ↦ elim (Bool-cases (ltb j 16)) [
        | inl low ↦ rw (rest, low) refl
        | inr high ↦ rw (rest, high) refl
      ]
    ]
