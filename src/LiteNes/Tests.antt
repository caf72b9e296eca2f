-- ===== src/LiteNes/Tests.antt =====
-- A console for the tests, and the theorems of apps/litenes at concrete inputs.
use wukong_am.Base.{ℕ, ◌+◌, ◌*◌, ◌<◌, ltb, ◌%◌, ◌≡◌, refl, true, false, arith, none, some, inl, inr}
use wukong_am.Base.{◌||◌, if◌then◌else◌, ◌==◌, of_bool}
use wukong_am.Base.Bytes.{Array, IsBytes}
use wukong_am.LiteNes.Bits.{common_bit_set}
use wukong_am.LiteNes.Ppu.{ppu_generates_nmi, ppu_io_read, ppu_io_write}
use wukong_am.LiteNes.Ppu.Laws.{set_address, ppu_io_read-ppu_io_write}
use wukong_am.LiteNes.Psg.{map, psg_io_read, psg_io_write}
use wukong_am.LiteNes.Psg.Laws.{after, psg_io_read-strobe}
use wukong_am.LiteNes.Rom.{fce_load_rom, is_signature, rom_type}
use wukong_am.LiteNes.Rom.Laws.{
  is_supported, has_room, return_value, return_value-fce_load_rom, fce_load_rom_lem,
}
use wukong_am.LiteNes.Machine.{Nes, IsNes}
use wukong_am.LiteNes.Video.{Video}
use wukong_am.LiteNes.Video.Render.{ppu_draw_background_scanline, ppu_draw_sprite_scanline}
use wukong_am.LiteNes.Video.Render.Sprites.{count_on_line, ppu_draw_sprite_scanline-count_on_line}
use wukong_am.LiteNes.Video.Render.Line.{background_at, ppu_draw_background_scanline-background_at}
use wukong_am.LiteNes.Memory.{memory_readb, memory_writeb, cpu_ram_read}
use wukong_am.LiteNes.Memory.Laws.{memory_readb-memory_writeb}
use wukong_am.LiteNes.Addressing.{Mode, address}
use wukong_am.LiteNes.Cpu.Flags.{cpu_flag_set}
use wukong_am.LiteNes.Cpu.Alu.{cpu_op_adc, cpu_op_sbc, cpu_op_cmp, cpu_op_cpx, cpu_op_cpy}
use wukong_am.LiteNes.Cpu.Alu.Laws.{
  IsSum, cpu_op_adc-IsSum, cpu_op_sbc-IsSum, IsComparison, cpu_op_cmp-IsComparison,
}
use wukong_am.LiteNes.Cpu.Stack.{
  set_pc, cpu_stack_pushb, cpu_stack_pushw, cpu_stack_popb, cpu_stack_popw, cpu_op_jsr, cpu_op_rts,
  cpu_op_rti,
}
use wukong_am.LiteNes.Cpu.Stack.Laws.{pop-push, cpu_op_rts-cpu_op_jsr}
use wukong_am.LiteNes.Cpu.Ops.{Op, handler}
use wukong_am.LiteNes.Cpu.Table.{Entry, cpu_op_table}
use wukong_am.LiteNes.Cpu.Run.{fetch, execute, charge, cpu_step, cpu_run, cpu_interrupt}
use wukong_am.LiteNes.Cpu.Run.Laws.{AllSet, cpu_run_ends, AllUnset, cpu_run-stuck}
use wukong_am.LiteNes.Cpu.Run.Interrupt.{cpu_op_rti-cpu_interrupt}

-- Every register is 0 and the picture unit is ready, with interrupts on; `program` is the contents
-- of the processor's memory.
abbrev console : Array → Nes
console program = record {
  cpu = record { pc = 0x300; sp = 0xfd; a = 0x50; x = 1; y = 2; p = 0x24 };
  ram = program;
  op_value = 0x70;
  op_address = 0x123;
  op_cycles = 0;
  cpu_cycles = 0;
  ppu = record {
    ctrl = 0x80;
    mask = 0;
    status = 0xa0;
    oam_addr = 0xf0;
    scroll = 0;
    scroll_x = 0;
    scroll_y = 0;
    addr = 0;
    ppu_data = 0;
    scroll_received_x = false;
    addr_received_high_byte = false;
    ready = true;
    mirroring = 0;
    mirroring_xor = 0x400;
    scanline = 0;
    first_read_2007 = true;
    addr_latch = 0;
    sprram = λ i. 0;
    ram = λ i. 0;
    sprite_hit_occured = false;
    latch = 0;
  };
  psg = record { p = 10; key_state = λ key. if key == 49 then 1 else 0; prev_write = 0 };
  mmc = record { id = 0; chr_pages = λ i. 0; number = 0; memory = λ i. 0 };
}

console-IsNes : (program : Array) → IsBytes program → IsNes (console program)
console-IsNes program h = record {
  cpu = record {
    pc = omega arith;
    sp = omega arith;
    a = omega arith;
    x = omega arith;
    y = omega arith;
    p = omega arith;
  };
  ram = h;
  op_value = omega arith;
  ppu = record {
    ctrl = omega arith;
    mask = omega arith;
    status = omega arith;
    oam_addr = omega arith;
    scroll_x = omega arith;
    scroll_y = omega arith;
    addr = omega arith;
    addr_latch = omega arith;
    latch = omega arith;
    sprram = λ i. omega arith;
    ram = λ i. omega arith;
  };
  chr_pages = λ i. omega arith;
  memory = λ i. omega arith;
}

-- Memory in which each cell holds the low byte of its address.
abbrev counting : Array
counting i = i % 256

counting-IsNes : IsNes (console counting)
counting-IsNes = console-IsNes counting (λ i. omega arith)

-- Memory full of NOP instructions.
abbrev nops : Array
nops i = 0xea

nops-IsNes : IsNes (console nops)
nops-IsNes = console-IsNes nops (λ i. omega arith)

-- The row of NOP.
abbrev nop_row : Entry
nop_row = record { cycles = 2; op = Op.nop; mode = Mode.implied; base = true }

nops-AllSet : AllSet 5 4 (console nops)
unfolding cpu_step fetch execute charge memory_readb cpu_ram_read cpu_op_table address handler
    set_pc AllSet
nops-AllSet = ((nop_row, refl), ((nop_row, refl), tt))

memory_readb-memory_writeb_example :
    (memory_readb (memory_writeb (console counting) 0x6005 0xaa) 0x0805).0 ≡ 0xaa
memory_readb-memory_writeb_example =
    memory_readb-memory_writeb (console counting) 0x6005 0x0805 0xaa
      (inr (omega arith, omega arith)) (inl (omega arith)) (omega arith)

cpu_run_ends_example : (t : Nes) × (cpu_run 5 13 (console nops) ≡ some t) × IsNes t
cpu_run_ends_example = cpu_run_ends 5 13 (console nops) nops-IsNes nops-AllSet (omega arith)

-- Memory full of a byte that is no instruction.
abbrev holes : Array
holes i = 0x02

holes-AllUnset : AllUnset 3 (console holes)
unfolding cpu_step fetch execute charge memory_readb cpu_ram_read cpu_op_table set_pc
holes-AllUnset = (refl, (refl, (refl, tt)))

cpu_run-stuck_example : cpu_run 3 7 (console holes) ≡ none
cpu_run-stuck_example = cpu_run-stuck 3 7 (console holes) holes-AllUnset refl (omega arith)

asks : ppu_generates_nmi (console counting).ppu ≡ true
unfolding ppu_generates_nmi common_bit_set
asks = refl

cpu_op_rti-cpu_interrupt_example :
    let t = cpu_interrupt (console counting) in
    ((cpu_op_rti t).cpu.pc ≡ 0x300)
    × ((cpu_op_rti t).cpu.sp ≡ 0xfd)
    × (cpu_flag_set (cpu_op_rti t).cpu 2 ≡ true)
cpu_op_rti-cpu_interrupt_example =
    cpu_op_rti-cpu_interrupt (console counting) (cpu_interrupt (console counting)) 2 counting-IsNes
      (omega arith) asks refl refl refl refl

cpu_op_rts-cpu_op_jsr_example :
    let t = cpu_op_jsr (console counting) in
    (t.cpu.pc ≡ 0x123) × ((cpu_op_rts t).cpu.pc ≡ 0x300) × ((cpu_op_rts t).cpu.sp ≡ 0xfd)
cpu_op_rts-cpu_op_jsr_example =
    cpu_op_rts-cpu_op_jsr (console counting) (cpu_op_jsr (console counting)) counting-IsNes refl
      refl refl

pop-push_example :
    let (b, t) = cpu_stack_popb (cpu_stack_pushb 0x12 (console counting)) in
    let (w, u) = cpu_stack_popw (cpu_stack_pushw 0x3456 (console counting)) in
    (b ≡ 0x12) × (t.cpu.sp ≡ 0xfd) × (w ≡ 0x3456) × (u.cpu.sp ≡ 0xfd)
pop-push_example = pop-push 0x12 0x3456 (console counting) (omega arith) (omega arith) (omega arith)

ppu_io_read-ppu_io_write_example :
    let s = (console counting).ppu in
    let written = ppu_io_write (set_address s 0x21 0x08) 0x2007 0x7f in
    (ppu_io_read (set_address written 0x21 0x08) 0x2007).0 ≡ 0x7f
ppu_io_read-ppu_io_write_example =
    ppu_io_read-ppu_io_write (console counting).ppu 0x21 0x08 0x7f refl refl (omega arith)
      (omega arith)

cpu_op_adc-IsSum_example :
    IsSum
      (console counting).cpu
      0x70
      (of_bool (cpu_flag_set (console counting).cpu 0))
      (cpu_op_adc (console counting)).cpu
cpu_op_adc-IsSum_example = cpu_op_adc-IsSum counting-IsNes

cpu_op_sbc-IsSum_example :
    IsSum
      (console counting).cpu
      0x8f
      (of_bool (cpu_flag_set (console counting).cpu 0))
      (cpu_op_sbc (console counting)).cpu
cpu_op_sbc-IsSum_example = cpu_op_sbc-IsSum counting-IsNes

cpu_op_cmp-IsComparison_example :
    IsComparison 0x50 0x70 (console counting).cpu (cpu_op_cmp (console counting)).cpu
    × IsComparison 1 0x70 (console counting).cpu (cpu_op_cpx (console counting)).cpu
    × IsComparison 2 0x70 (console counting).cpu (cpu_op_cpy (console counting)).cpu
cpu_op_cmp-IsComparison_example = cpu_op_cmp-IsComparison counting-IsNes

psg_io_read-strobe_example :
    let s = (console counting).psg in
    (psg_io_read (after 0 (psg_io_write (psg_io_write s 0x4016 1) 0x4016 0)) 0x4016).0 ≡ 1
unfolding map
psg_io_read-strobe_example = psg_io_read-strobe (console counting).psg 1 0 0 refl refl (omega arith)

nop_at : cpu_op_table 0xea ≡ some nop_row
unfolding cpu_op_table
nop_at = refl

-- An image with one block of program and one page of characters; behind the header each byte is the
-- low byte of its place.
abbrev image : Array
image i =
    if i == 0
    then 0x4e
    else if i == 1
    then 0x45
    else if i == 2
    then 0x53
    else if i == 3
    then 0x1a
    else if i == 4
    then 1
    else if i == 5
    then 1
    else if ltb i 16
    then 0
    else i % 256

return_value-fce_load_rom_example :
    return_value (fce_load_rom image (console (λ i. 0)))
    ≡ (if is_supported image then (if has_room 0 1 then some 0 else none) else some 0xffff_ffff)
return_value-fce_load_rom_example = return_value-fce_load_rom image (console (λ i. 0))

fce_load_rom_example :
    (t : Nes) × (fce_load_rom image (console (λ i. 0)) ≡ some (0, t))
    × ((i : ℕ)
        → i < 0x8000
        → t.mmc.memory (0x8000 + i) ≡ image (16 + (if image 4 == 1 then i % 0x4000 else i)))
    × ((i : ℕ) → image 5 ≡ 1 → i < 0x2000 → t.ppu.ram i ≡ image (16 + image 4 * 0x4000 + i))
unfolding is_signature rom_type
fce_load_rom_example = fce_load_rom_lem image (console (λ i. 0)) refl refl

-- The console shows its background, which is scrolled by 5 points.
abbrev video : Video
video = record {
  nes = record (console counting) {
    ppu = record ((console counting).ppu) { mask = 8; scroll_x = 5; scanline = 20; ram = counting };
  };
  frame_cnt = 0;
  canvas = λ i. 0;
  background = λ i. 0;
}

ppu_draw_background_scanline-background_at_example :
    ((ppu_draw_background_scanline true (ppu_draw_background_scanline false video)).canvas
        ((20 + 1) * 256 + 100)
      ≡ background_at 100 video.nes.ppu 0)
    × ((ppu_draw_background_scanline true (ppu_draw_background_scanline false video)).nes
        ≡ video.nes)
ppu_draw_background_scanline-background_at_example =
    ppu_draw_background_scanline-background_at 100 video refl (omega arith) (omega arith)
      (omega arith)

ppu_draw_sprite_scanline-count_on_line_example :
    (common_bit_set (ppu_draw_sprite_scanline video).nes.ppu.status 5
      ≡ (common_bit_set video.nes.ppu.status 5 || ltb 8 (count_on_line 64 video.nes.ppu)))
    × ((ppu_draw_sprite_scanline video).nes.ppu.sprram ≡ video.nes.ppu.sprram)
    × ((ppu_draw_sprite_scanline video).nes.ppu.scanline ≡ video.nes.ppu.scanline)
    × ((ppu_draw_sprite_scanline video).nes.ppu.ctrl ≡ video.nes.ppu.ctrl)
ppu_draw_sprite_scanline-count_on_line_example = ppu_draw_sprite_scanline-count_on_line video
