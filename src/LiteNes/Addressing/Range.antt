-- ===== src/LiteNes/Addressing/Range.antt =====
-- Every addressing mode keeps the machine in range, the fetched argument included.
use wukong_am.Base.{ℕ, ◌+◌, ◌<◌, ◌==◌, arith, bit_and}
use wukong_am.Base.{if-intro, u16, ◌>>>◌}
use wukong_am.LiteNes.Machine.{Nes, IsCpu, IsNes}
use wukong_am.LiteNes.Memory.{memory_readb, memory_readw}
use wukong_am.LiteNes.Memory.Range.{memory_readb-IsRead, memory_readw-IsRead}
use wukong_am.LiteNes.Addressing.{
  Mode, advance, page_cycle, load_at, cpu_address_immediate, zero_page_at, cpu_address_zero_page,
  cpu_address_absolute, cpu_address_absolute_x, cpu_address_absolute_y, cpu_address_relative,
  cpu_address_indirect, cpu_address_indirect_x, cpu_address_indirect_y, address,
}

pub advance-IsNes : (n : ℕ) {s : Nes} → IsNes s → IsNes (advance n s)
unfolding advance
advance-IsNes n {s} h =
    let pc : u16 (s.cpu.pc + n) < 65536 = omega arith in
    let c : IsCpu (advance n s).cpu = assumption (pc, h.cpu) in assumption c

page_cycle-IsNes : {s : Nes} → IsNes s → IsNes (page_cycle s)
unfolding page_cycle
page_cycle-IsNes {s} h = if-intro IsNes (s.op_address >>> 8 == s.cpu.pc >>> 8) h (assumption h)

load_at-IsNes : (a : ℕ) {s : Nes} → IsNes s → IsNes (load_at a s)
unfolding load_at
load_at-IsNes a h = let r = memory_readb-IsRead a h in assumption (r.0, r.1)

zero_page_at-IsNes : (index : ℕ) {s : Nes} → IsNes s → IsNes (zero_page_at index s)
unfolding zero_page_at
zero_page_at-IsNes index {s} h =
    let r = memory_readb-IsRead s.cpu.pc h in
    let byte = r.1.ram (bit_and ((memory_readb s s.cpu.pc).0 + index) 0xff) in
    advance-IsNes 1 (assumption (byte, r.1))

indirect-IsNes : {s : Nes} → IsNes s → IsNes (cpu_address_indirect s)
unfolding cpu_address_indirect
indirect-IsNes {s} h =
    let r = memory_readw-IsRead s.cpu.pc h in
    let arg = (memory_readw s s.cpu.pc).0 in
    let hi = memory_readb-IsRead (bit_and arg 0xff00) r.1 in
    let lo = memory_readb-IsRead arg hi.1 in
    let word = memory_readw-IsRead arg r.1 in
    if-intro IsNes (bit_and arg 0xff == 0xff) (advance-IsNes 2 (assumption lo.1))
      (advance-IsNes 2 (assumption word.1))

pub address-IsNes : (mode : Mode) {s : Nes} → IsNes s → IsNes (address mode s)
unfolding address
address-IsNes Mode.implied h = h
address-IsNes Mode.immediate {s} h =
    unfold cpu_address_immediate in
    let r = memory_readb-IsRead s.cpu.pc h in advance-IsNes 1 (assumption (r.0, r.1))
address-IsNes Mode.zero_page {s} h =
    unfold cpu_address_zero_page in
    let r = memory_readb-IsRead s.cpu.pc h in
    let byte = r.1.ram (memory_readb s s.cpu.pc).0 in advance-IsNes 1 (assumption (byte, r.1))
address-IsNes Mode.zero_page_x h = zero_page_at-IsNes _ h
address-IsNes Mode.zero_page_y h = zero_page_at-IsNes _ h
address-IsNes Mode.absolute {s} h =
    unfold cpu_address_absolute in
    advance-IsNes 2 (load_at-IsNes _ (memory_readw-IsRead s.cpu.pc h).1)
address-IsNes Mode.absolute_x {s} h =
    unfold cpu_address_absolute_x in
    page_cycle-IsNes (advance-IsNes 2 (load_at-IsNes _ (memory_readw-IsRead s.cpu.pc h).1))
address-IsNes Mode.absolute_y {s} h =
    unfold cpu_address_absolute_y in
    page_cycle-IsNes (advance-IsNes 2 (load_at-IsNes _ (memory_readw-IsRead s.cpu.pc h).1))
address-IsNes Mode.relative {s} h =
    unfold cpu_address_relative in
    let r = memory_readb-IsRead s.cpu.pc h in
    let next = advance-IsNes 1 r.1 in page_cycle-IsNes (assumption next)
address-IsNes Mode.indirect h = indirect-IsNes h
address-IsNes Mode.indirect_x {s} h =
    unfold cpu_address_indirect_x in
    let r = memory_readb-IsRead s.cpu.pc h in
    let hi = memory_readb-IsRead _ r.1 in
    let lo = memory_readb-IsRead _ hi.1 in advance-IsNes 1 (load_at-IsNes _ lo.1)
address-IsNes Mode.indirect_y {s} h =
    unfold cpu_address_indirect_y in
    let r = memory_readb-IsRead s.cpu.pc h in
    let hi = memory_readb-IsRead _ r.1 in
    let lo = memory_readb-IsRead _ hi.1 in page_cycle-IsNes (advance-IsNes 1 (load_at-IsNes _ lo.1))
