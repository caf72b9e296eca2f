-- ===== src/LiteNes/Cpu/Run/Interrupt.antt =====
-- The interrupt of the picture unit and the way back from it.
use wukong_am.Base.{ℕ, ◌+◌, ◌/◌, ◌%◌, ◌^◌, ◌<◌, ◌≡◌, refl, ap, ◌∙◌, true, false}
use wukong_am.Base.{arith, ◌==◌, ◌||◌, u8, bit_or}
use wukong_am.Base.Bytes.{Array, write}
use native.Mathlib.Nat.{mod-eq_of_lt}
use wukong_am.Base.Bits.{bit-mod, bit-bit_or, bit-two_pow, bit-lt}
use wukong_am.LiteNes.Bits.{common_bit_set, common_modify_bit}
use wukong_am.LiteNes.Bits.Laws.{
  common_modify_bit-lt, of_bool-common_bit_set, common_bit_set-common_modify_bit,
}
use wukong_am.LiteNes.Machine.{Nes, IsNes}
use wukong_am.LiteNes.Memory.Laws.{memory_readw-keeps}
use wukong_am.LiteNes.Ppu.{ppu_generates_nmi}
use wukong_am.LiteNes.Cpu.Flags.{cpu_modify_flag, cpu_flag_set}
use wukong_am.LiteNes.Cpu.Stack.{
  set_p, set_pc, cpu_op_rti, cpu_nmi_interrupt_address, cpu_stack_pushb, cpu_stack_pushw,
}
use wukong_am.LiteNes.Cpu.Stack.Laws.{with_stack, pushb_lem, pushw_lem, popb_lem, popw_lem}
use wukong_am.LiteNes.Cpu.Run.{cpu_interrupt}

-- The flags that the interrupt pushes.
abbrev pub pushed_flags : Nes → ℕ
pushed_flags s = common_modify_bit 8 (u8 (bit_or s.cpu.p 0x04)) 5 false

-- The memory that it leaves behind.
abbrev pub pushed_ram : Nes → Array
pushed_ram s =
    write
      (write (write s.ram (0xff + s.cpu.sp) (s.cpu.pc % 256)) (0x100 + s.cpu.sp)
        (s.cpu.pc / 256 % 256))
      (0x100 + u8 (s.cpu.sp + 254)) (u8 (pushed_flags s))

-- The machine after the two pushes.
pushes :
    (s : Nes)
    → s.cpu.sp < 256
    → cpu_stack_pushb (cpu_stack_pushw s.cpu.pc s).cpu.p (cpu_stack_pushw s.cpu.pc s)
      ≡ with_stack s (u8 (s.cpu.sp + 253)) (
          write
            (write
              (write s.ram (0xff + s.cpu.sp) (s.cpu.pc % 256))
              (0x100 + s.cpu.sp)
              (s.cpu.pc / 256 % 256))
            (0x100 + u8 (s.cpu.sp + 254))
            (u8 s.cpu.p))
pushes s h =
    let t = with_stack s (u8 (s.cpu.sp + 254)) (
      write (write s.ram (0xff + s.cpu.sp) (s.cpu.pc % 256)) (0x100 + s.cpu.sp)
        (s.cpu.pc / 256 % 256)) in
    let down : u8 (t.cpu.sp + 255) ≡ u8 (s.cpu.sp + 253) = omega arith in
    rw (pushw_lem s.cpu.pc s h, pushb_lem s.cpu.p t (omega arith), down) refl

-- The interrupt of a picture unit that asks for one, with its parts: what it leaves on the stack.
cpu_interrupt_parts :
    (s : Nes)
    → IsNes s
    → ppu_generates_nmi s.ppu ≡ true
    → ((cpu_interrupt s).cpu.sp ≡ u8 (s.cpu.sp + 253)) × ((cpu_interrupt s).ram ≡ pushed_ram s)
unfolding cpu_interrupt set_p cpu_modify_flag cpu_nmi_interrupt_address set_pc
cpu_interrupt_parts s h asks =
    let s1 = record s { cpu = record (s.cpu) { p = pushed_flags s } } in
    let s2 = cpu_stack_pushw s1.cpu.pc s1 in
    let s3 = cpu_stack_pushb s2.cpu.p s2 in
    let kept = memory_readw-keeps s3 0xfffa in
    let e = pushes s1 h.cpu.sp in
    rw asks
      (ap (λ c. c.sp) kept.0 ∙ ap (λ (t : Nes). t.cpu.sp) e, kept.1 ∙ ap (λ (t : Nes). t.ram) e)

-- Setting one bit of a byte by `|`.
set_one :
    (p i j : ℕ)
    → i < 8
    → j < 8
    → common_bit_set (u8 (bit_or p (2 ^ i))) j ≡ ((i == j) || common_bit_set p j)
set_one p i j h k = ground (
  arith,
  of_bool-common_bit_set (u8 (bit_or p (2 ^ i))) j,
  of_bool-common_bit_set p j,
  bit-mod 8 (bit_or p (2 ^ i)) j,
  bit-bit_or p (2 ^ i) j,
  bit-two_pow i j,
  bit-lt p j,
)

restored_flags :
    (s : Nes) (j : ℕ)
    → j < 8
    → common_bit_set (u8 (bit_or (u8 (pushed_flags s)) 0x20)) j
      ≡ ((j == 2) || (j == 5) || common_bit_set s.cpu.p j)
restored_flags s j h =
    let byte : u8 (pushed_flags s) ≡ pushed_flags s =
      mod-eq_of_lt (common_modify_bit-lt 8 (u8 (bit_or s.cpu.p 0x04)) 5 false) in
    rw byte (
      ground (
        arith,
        set_one (pushed_flags s) 5 j,
        common_bit_set-common_modify_bit 8 (u8 (bit_or s.cpu.p 0x04)) 5 j false,
        set_one s.cpu.p 2 j,
      ))

-- An interrupt routine returns to where it came from: where the picture unit asks for an interrupt
-- of a machine in range, and later the stack pointer and the three bytes that the interrupt pushed
-- are as it left them, RTI restores the program counter, the stack pointer and the flags, except
-- that flags 2 (interrupts disabled) and 5 are then set whatever they were.
pub cpu_op_rti-cpu_interrupt :
    (s t : Nes) (j : ℕ)
    → IsNes s
    → j < 8
    → ppu_generates_nmi s.ppu ≡ true
    → t.cpu.sp ≡ (cpu_interrupt s).cpu.sp
    → t.ram (0xff + s.cpu.sp) ≡ (cpu_interrupt s).ram (0xff + s.cpu.sp)
    → t.ram (0x100 + s.cpu.sp) ≡ (cpu_interrupt s).ram (0x100 + s.cpu.sp)
    → t.ram (0x100 + u8 (s.cpu.sp + 254)) ≡ (cpu_interrupt s).ram (0x100 + u8 (s.cpu.sp + 254))
    → ((cpu_op_rti t).cpu.pc ≡ s.cpu.pc)
      × ((cpu_op_rti t).cpu.sp ≡ s.cpu.sp)
      × (cpu_flag_set (cpu_op_rti t).cpu j ≡ ((j == 2) || (j == 5) || cpu_flag_set s.cpu j))
unfolding cpu_op_rti set_p set_pc cpu_flag_set
cpu_op_rti-cpu_interrupt s t j h lt asks same lo hi flags =
    let parts = cpu_interrupt_parts s h asks in
    let sp : t.cpu.sp ≡ u8 (s.cpu.sp + 253) = same ∙ parts.0 in
    let first : u8 (t.cpu.sp + 1) ≡ u8 (s.cpu.sp + 254) = omega arith in
    let byte : t.ram (0x100 + u8 (s.cpu.sp + 254)) ≡ u8 (pushed_flags s) =
      flags ∙ ap (λ m. m (0x100 + u8 (s.cpu.sp + 254))) parts.1 ∙ ground arith in
    let low : t.ram (0xff + s.cpu.sp) ≡ s.cpu.pc % 256 =
      lo ∙ ap (λ m. m (0xff + s.cpu.sp)) parts.1 ∙ ground arith in
    let high : t.ram (0x100 + s.cpu.sp) ≡ s.cpu.pc / 256 =
      hi ∙ ap (λ m. m (0x100 + s.cpu.sp)) parts.1 ∙ ground arith in
    let small : t.cpu.sp < 256 = omega arith in
    let t1 = set_p (bit_or (u8 (pushed_flags s)) 0x20) (with_stack t (u8 (s.cpu.sp + 254)) t.ram) in
    let back : u8 (t1.cpu.sp + 2) ≡ s.cpu.sp = omega arith in
    rw (popb_lem t small, first, byte, popw_lem t1 (omega arith), back, low, high)
      (omega arith, refl, restored_flags s j lt)
