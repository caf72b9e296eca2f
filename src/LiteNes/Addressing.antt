-- ===== src/LiteNes/Addressing.antt =====
-- apps/litenes/src/cpu-addressing.c: each mode fetches the argument of the instruction at `pc`. Where
-- an expression makes two reads, the left one is made first.
pub mod Range
use wukong_am.Base.{ℕ, ◌+◌, ◌-◌, ◌^◌, ◌==◌, if◌then◌else◌, bit_and, bit_or, truthy}
use wukong_am.Base.{u16, u32, ◌<<<◌, ◌>>>◌}
use wukong_am.LiteNes.Machine.{Nes}
use wukong_am.LiteNes.Memory.{memory_readb, memory_readw}

pub data Mode : Type 0 where
  implied immediate zero_page zero_page_x zero_page_y absolute absolute_x absolute_y : Mode
  relative indirect indirect_x indirect_y : Mode

-- `cpu.PC += n`.
pub advance : ℕ → Nes → Nes
advance n s = record s { cpu = record (s.cpu) { pc = u16 (s.cpu.pc + n) } }

-- The extra cycle where the argument lies on another page than the next instruction.
pub page_cycle : Nes → Nes
page_cycle s =
    if s.op_address >>> 8 == s.cpu.pc >>> 8 then s else record s { op_cycles = s.op_cycles + 1 }

-- `op_value = memory_readb(op_address)`, after `op_address` was set.
pub load_at : ℕ → Nes → Nes
load_at address s =
    let (value, s') = memory_readb s address in record s' { op_address = address; op_value = value }

pub cpu_address_immediate : Nes → Nes
cpu_address_immediate s =
    let (value, s') = memory_readb s s.cpu.pc in advance 1 (record s' { op_value = value })

-- The three zero page modes read the processor's memory directly.
pub zero_page_at : ℕ → Nes → Nes
zero_page_at index s =
    let (base, s') = memory_readb s s.cpu.pc in
    let address = bit_and (base + index) 0xff in
    advance 1 (record s' { op_address = address; op_value = s'.ram address })

pub cpu_address_zero_page : Nes → Nes
cpu_address_zero_page s =
    let (base, s') = memory_readb s s.cpu.pc in
    advance 1 (record s' { op_address = base; op_value = s'.ram base })

pub cpu_address_absolute : Nes → Nes
cpu_address_absolute s =
    let (address, s') = memory_readw s s.cpu.pc in advance 2 (load_at address s')

-- Here the sum is not cut to 16 bits.
pub cpu_address_absolute_x : Nes → Nes
cpu_address_absolute_x s =
    let (base, s') = memory_readw s s.cpu.pc in
    page_cycle (advance 2 (load_at (base + s'.cpu.x) s'))

pub cpu_address_absolute_y : Nes → Nes
cpu_address_absolute_y s =
    let (base, s') = memory_readw s s.cpu.pc in
    page_cycle (advance 2 (load_at (bit_and (base + s'.cpu.y) 0xffff) s'))

pub cpu_address_relative : Nes → Nes
cpu_address_relative s =
    let (offset, s1) = memory_readb s s.cpu.pc in
    let s2 = advance 1 s1 in
    let signed = if truthy (bit_and offset 0x80) then offset + 2 ^ 32 - 0x100 else offset in
    page_cycle (record s2 { op_address = u32 (signed + s2.cpu.pc) })

pub cpu_address_indirect : Nes → Nes
cpu_address_indirect s =
    let (arg, s1) = memory_readw s s.cpu.pc in
    if bit_and arg 0xff == 0xff
    then (let (hi, s2) = memory_readb s1 (bit_and arg 0xff00) in
        let (lo, s3) = memory_readb s2 arg in
        advance 2 (record s3 { op_address = (hi <<< 8) + lo }))
    else (let (address, s2) = memory_readw s1 arg in advance 2 (record s2 { op_address = address }))

pub cpu_address_indirect_x : Nes → Nes
cpu_address_indirect_x s =
    let (arg, s1) = memory_readb s s.cpu.pc in
    let (hi, s2) = memory_readb s1 (bit_and (arg + s1.cpu.x + 1) 0xff) in
    let (lo, s3) = memory_readb s2 (bit_and (arg + s2.cpu.x) 0xff) in
    advance 1 (load_at (bit_or (hi <<< 8) lo) s3)

pub cpu_address_indirect_y : Nes → Nes
cpu_address_indirect_y s =
    let (arg, s1) = memory_readb s s.cpu.pc in
    let (hi, s2) = memory_readb s1 (bit_and (arg + 1) 0xff) in
    let (lo, s3) = memory_readb s2 arg in
    page_cycle (advance 1 (load_at (bit_and (bit_or (hi <<< 8) lo + s3.cpu.y) 0xffff) s3))

unfoldable pub address : Mode → Nes → Nes
address Mode.implied s = s
address Mode.immediate s = cpu_address_immediate s
address Mode.zero_page s = cpu_address_zero_page s
address Mode.zero_page_x s = zero_page_at s.cpu.x s
address Mode.zero_page_y s = zero_page_at s.cpu.y s
address Mode.absolute s = cpu_address_absolute s
address Mode.absolute_x s = cpu_address_absolute_x s
address Mode.absolute_y s = cpu_address_absolute_y s
address Mode.relative s = cpu_address_relative s
address Mode.indirect s = cpu_address_indirect s
address Mode.indirect_x s = cpu_address_indirect_x s
address Mode.indirect_y s = cpu_address_indirect_y s
