-- ===== src/LiteNes/Cpu/Stack/Laws.antt =====
-- The stack: what pushes and pops do to the processor's memory, and the way back from a subroutine.
use wukong_am.Base.{ℕ, ◌+◌, ◌-◌, ◌*◌, ◌^◌, ◌<◌, ◌%◌, ◌/◌, ◌≡◌, refl, inl}
use wukong_am.Base.{arith, u8, u16}
use wukong_am.Base.Bytes.{Array, write}
use wukong_am.LiteNes.Machine.{Nes, IsNes}
use wukong_am.LiteNes.Memory.Laws.{
  memory_readb-InRam, memory_writeb-InRam, memory_writew-InRam, memory_readw-InRam,
}
use wukong_am.LiteNes.Cpu.Stack.{
  set_pc, set_sp, cpu_stack_pushb, cpu_stack_pushw, cpu_stack_popb, cpu_stack_popw, cpu_op_jsr,
  cpu_op_rts,
}

-- A machine with its stack pointer and memory given anew.
abbrev pub with_stack : Nes → ℕ → Array → Nes
with_stack s sp ram = record s { cpu = record (s.cpu) { sp = sp }; ram = ram }

pub pushb_lem :
    (v : ℕ) (s : Nes)
    → s.cpu.sp < 256
    → cpu_stack_pushb v s
      ≡ with_stack s (u8 (s.cpu.sp + 255)) (write s.ram (0x100 + s.cpu.sp) (u8 v))
unfolding cpu_stack_pushb set_sp
pushb_lem v s h =
    let cell : (0x100 + s.cpu.sp) % 0x800 ≡ 0x100 + s.cpu.sp = omega arith in
    let down : s.cpu.sp + 2 ^ 8 - 1 ≡ s.cpu.sp + 255 = omega arith in
    rw (memory_writeb-InRam _ (0x100 + s.cpu.sp) v (inl (omega arith)), cell, down) refl

pub popb_lem :
    (s : Nes)
    → s.cpu.sp < 256
    → cpu_stack_popb s ≡ (s.ram (0x100 + u8 (s.cpu.sp + 1)), with_stack s (u8 (s.cpu.sp + 1)) s.ram)
unfolding cpu_stack_popb set_sp
popb_lem s h =
    let cell : (0x100 + u8 (s.cpu.sp + 1)) % 0x800 ≡ 0x100 + u8 (s.cpu.sp + 1) = omega arith in
    rw (memory_readb-InRam _ (0x100 + u8 (s.cpu.sp + 1)) (inl (omega arith)), cell) refl

pub pushw_lem :
    (v : ℕ) (s : Nes)
    → s.cpu.sp < 256
    → cpu_stack_pushw v s
      ≡ with_stack s
          (u8 (s.cpu.sp + 254))
          (write (write s.ram (0xff + s.cpu.sp) (v % 256)) (0x100 + s.cpu.sp) (v / 256 % 256))
unfolding cpu_stack_pushw set_sp
pushw_lem v s h =
    let lo : (0xff + s.cpu.sp) % 0x800 ≡ 0xff + s.cpu.sp = omega arith in
    let hi : (0xff + s.cpu.sp + 1) % 0x800 ≡ 0x100 + s.cpu.sp = omega arith in
    let low : u16 v % 256 ≡ v % 256 = omega arith in
    let top : u16 v / 256 % 256 ≡ v / 256 % 256 = omega arith in
    let down : s.cpu.sp + 2 ^ 8 - 2 ≡ s.cpu.sp + 254 = omega arith in
    rw (memory_writew-InRam s (0xff + s.cpu.sp) (u16 v) (omega arith), lo, hi, low, top, down) refl

pub popw_lem :
    (s : Nes)
    → s.cpu.sp < 256
    → (let sp = u8 (s.cpu.sp + 2) in
        cpu_stack_popw s
        ≡ (u16 (s.ram (0xff + sp) + s.ram (0x100 + sp) * 256), with_stack s sp s.ram))
unfolding cpu_stack_popw set_sp
popw_lem s h =
    let sp = u8 (s.cpu.sp + 2) in
    let lo : (0xff + sp) % 0x800 ≡ 0xff + sp = omega arith in
    let hi : (0xff + sp + 1) % 0x800 ≡ 0x100 + sp = omega arith in
    rw (memory_readw-InRam _ (0xff + sp) (omega arith), lo, hi) refl

-- A byte and a word, each in its range, are popped again after they were pushed, from any stack
-- pointer below 256, its wrap at 0 included: the pop returns the value and the stack pointer from
-- before the push.
pub pop-push :
    (b w : ℕ) (s : Nes)
    → s.cpu.sp < 256
    → b < 256
    → w < 65536
    → (let (b', t) = cpu_stack_popb (cpu_stack_pushb b s) in
        let (w', u) = cpu_stack_popw (cpu_stack_pushw w s) in
        (b' ≡ b) × (t.cpu.sp ≡ s.cpu.sp) × (w' ≡ w) × (u.cpu.sp ≡ s.cpu.sp))
pop-push b w s h k l =
    let t = with_stack s (u8 (s.cpu.sp + 255)) (write s.ram (0x100 + s.cpu.sp) (u8 b)) in
    let u =
      with_stack s (u8 (s.cpu.sp + 254))
        (write (write s.ram (0xff + s.cpu.sp) (w % 256)) (0x100 + s.cpu.sp) (w / 256 % 256)) in
    let back : u8 (t.cpu.sp + 1) ≡ s.cpu.sp = omega arith in
    let back2 : u8 (u.cpu.sp + 2) ≡ s.cpu.sp = omega arith in
    rw
      (
        pushb_lem b s h,
        popb_lem t (omega arith),
        pushw_lem w s h,
        popw_lem u (omega arith),
        back,
        back2,
      )
      (ground arith, refl, ground arith, refl)

-- A subroutine returns to the instruction behind its call: on a machine in range, JSR jumps to its
-- argument, and where the stack pointer and the two bytes of the return address are later as JSR
-- left them, RTS restores `pc` and the stack pointer.
pub cpu_op_rts-cpu_op_jsr :
    (s t : Nes)
    → IsNes s
    → t.cpu.sp ≡ (cpu_op_jsr s).cpu.sp
    → t.ram (0xff + s.cpu.sp) ≡ (cpu_op_jsr s).ram (0xff + s.cpu.sp)
    → t.ram (0x100 + s.cpu.sp) ≡ (cpu_op_jsr s).ram (0x100 + s.cpu.sp)
    → ((cpu_op_jsr s).cpu.pc ≡ u16 s.op_address)
      × ((cpu_op_rts t).cpu.pc ≡ s.cpu.pc)
      × ((cpu_op_rts t).cpu.sp ≡ s.cpu.sp)
unfolding cpu_op_jsr cpu_op_rts set_pc
cpu_op_rts-cpu_op_jsr s t h same lo hi =
    let back : u8 (t.cpu.sp + 2) ≡ s.cpu.sp =
      omega (arith, rw (pushw_lem (s.cpu.pc + 2 ^ 16 - 1) s h.cpu.sp) at same) in
    let word : u16 (t.ram (0xff + s.cpu.sp) + t.ram (0x100 + s.cpu.sp) * 256)
        ≡ u16 (s.cpu.pc + 2 ^ 16 - 1) =
      ground (
        arith,
        rw (pushw_lem (s.cpu.pc + 2 ^ 16 - 1) s h.cpu.sp) at lo,
        rw (pushw_lem (s.cpu.pc + 2 ^ 16 - 1) s h.cpu.sp) at hi,
      ) in
    let small : t.cpu.sp < 256 =
      omega (arith, rw (pushw_lem (s.cpu.pc + 2 ^ 16 - 1) s h.cpu.sp) at same) in
    rw (popw_lem t small, back, word) (refl, omega arith, refl)
