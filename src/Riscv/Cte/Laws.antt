-- ===== src/Riscv/Cte/Laws.antt =====
-- Which handler a trap runs, and what a system call does.
use wukong_am.Base.{ℕ, ◌+◌, ◌*◌, ◌/◌, ◌%◌, ◌^◌, ◌<◌, ◌≡◌, refl, sym, ◌∙◌, true, false, arith}
use wukong_am.Base.{
  Bool, Bool-cases, inl, inr, ◌==◌, ltb, truthy, if◌then◌else◌, none, some, bit_and, u64,
}
use wukong_am.Base.Bits.{bit_and_mask}
use wukong_am.Base.Bits.Fields.{bit_or-field, bit_and_high, bit_or_comm}
use wukong_am.Riscv.Vme.{satp_of, get_satp}
use wukong_am.Riscv.Cte.{Handler, Cte, selected, irq_handler_reg}

-- A cause: an interrupt or an exception, with its code.
abbrev pub cause : Bool → ℕ → ℕ
cause interrupt code = if interrupt then 2 ^ 63 + code else code

cause_bit :
    (interrupt : Bool) (code : ℕ)
    → code < 2 ^ 63
    → truthy (bit_and (cause interrupt code) (2 ^ 63)) ≡ interrupt
cause_bit true code h = ground (arith, bit_and_high 63 1 (2 ^ 63 + code) (omega arith))
cause_bit false code h = ground (arith, bit_and_high 63 1 code (omega arith))

cause_code : (interrupt : Bool) (code : ℕ) → bit_and (cause interrupt code) 0x7fff ≡ code % 2 ^ 15
cause_code true code = omega (arith, bit_and_mask 15 (2 ^ 63 + code))
cause_code false code = omega (arith, bit_and_mask 15 code)

-- The handler of a cause: the low 15 bits of its code are the place in the table.
pub selected-cause :
    (s : Cte) (interrupt : Bool) (code : ℕ)
    → code < 2 ^ 63
    → selected s (cause interrupt code) ≡ (
        if ltb (code % 2 ^ 15) 16
        then some (if interrupt then s.interrupts (code % 2 ^ 15) else s.exceptions (code % 2 ^ 15))
        else none)
unfolding selected
selected-cause s interrupt code h = rw (cause_code interrupt code, cause_bit interrupt code h) refl

selected_lem :
    (s : Cte) (interrupt : Bool) (code : ℕ)
    → code < 16
    → selected s (cause interrupt code)
      ≡ some (if interrupt then s.interrupts code else s.exceptions code)
selected_lem s interrupt code h =
    let low : code % 2 ^ 15 ≡ code = omega arith in
    let fits : ltb code 16 ≡ true = ground arith in
    selected-cause s interrupt code (omega arith) ∙ rw (low, fits) refl

pub get_satp-satp_of : (root : ℕ) → root % 4096 ≡ 0 → root < 2 ^ 56 → get_satp (satp_of root) ≡ root
unfolding get_satp satp_of
get_satp-satp_of root a h =
    omega
      (arith, bit_or_comm (8 * 2 ^ 60) (root / 4096), bit_or-field 63 (root / 4096) 1 (omega arith))

cause_offset : (interrupt : Bool) (code : ℕ) → code < 16 → u64 (cause interrupt code * 2) / 2 ≡ code
cause_offset true code h = omega arith
cause_offset false code h = omega arith

-- The tables after a registration.
registered : Cte → Bool → ℕ → Handler → Cte
registered s interrupt code h =
    if interrupt
    then record s { interrupts = λ j. if j == code then h else s.interrupts j }
    else record s { exceptions = λ j. if j == code then h else s.exceptions j }

irq_handler_reg-registered :
    (s : Cte) (h : Handler) (interrupt : Bool) (code : ℕ)
    → code < 16
    → irq_handler_reg (cause interrupt code) h s ≡ some (registered s interrupt code h)
unfolding irq_handler_reg registered
irq_handler_reg-registered s h interrupt code k =
    let fits : ltb code 16 ≡ true = ground arith in
    rw (cause_offset interrupt code k, cause_bit interrupt code (omega arith), fits) refl

-- After `irq_handler_reg` of a handler for a cause with a code below 16, a trap of that cause runs the
-- handler, and a trap of any other cause with a code below 16 runs what it ran before.
pub selected-irq_handler_reg :
    (s : Cte) (h : Handler) (b b' : Bool) (i i' : ℕ)
    → i < 16
    → i' < 16
    → (t : Cte) × (irq_handler_reg (cause b i) h s ≡ some t)
      × (selected t (cause b' i')
          ≡ (if cause b' i' == cause b i then some h else selected s (cause b' i')))
unfolding registered
selected-irq_handler_reg s h b b' i i' k k' = (
  registered s b i h,
  irq_handler_reg-registered s h b i k,
  selected_lem (registered s b i h) b' i' k' ∙ go b b',
)
  where
    go :
        (b b' : Bool)
        → some
            (if b' then (registered s b i h).interrupts i' else (registered s b i h).exceptions i')
          ≡ (if cause b' i' == cause b i then some h else selected s (cause b' i'))
    go true true =
        let e : (cause true i' == cause true i) ≡ (i' == i) = ground arith in
        rw e (elim (Bool-cases (i' == i)) [
          | inl same ↦ rw same refl
          | inr other ↦ rw other (sym (selected_lem s true i' k'))
        ])
    go true false =
        let e : (cause false i' == cause true i) ≡ false = ground arith in
        rw e (sym (selected_lem s false i' k'))
    go false true =
        let e : (cause true i' == cause false i) ≡ false = ground arith in
        rw e (sym (selected_lem s true i' k'))
    go false false = elim (Bool-cases (i' == i)) [
      | inl same ↦ rw same refl
      | inr other ↦ rw other (sym (selected_lem s false i' k'))
    ]
