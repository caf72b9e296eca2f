-- ===== src/LiteNes/Cpu/Table.antt =====
-- The instruction table that `cpu_init` of apps/litenes/src/cpu.c fills: cycles, handler and
-- addressing mode of each opcode. The names, for messages only, are left out.
pub mod Laws
use wukong_am.Base.{
  ℕ, Bool, true, false, Option, none, some, List, [], ◌∷◌, ◌++◌, ◌==◌, if◌then◌else◌,
}
use wukong_am.LiteNes.Addressing.{Mode}
use wukong_am.LiteNes.Cpu.Ops.{Op}

pub record Entry : Type 0 where
  pub cycles : ℕ
  pub op : Op
  pub mode : Mode
  pub base : Bool

-- The macros `CPU_OP_BIS`, `CPU_OP_EIS` and `CPU_OP_NII`: an opcode with its row.
abbrev bis : ℕ → ℕ → Op → Mode → ℕ × Entry
bis code cycles op mode = (code, record { cycles = cycles; op = op; mode = mode; base = true })

abbrev eis : ℕ → ℕ → Op → Mode → ℕ × Entry
eis code cycles op mode = (code, record { cycles = cycles; op = op; mode = mode; base = false })

abbrev nii : ℕ → Mode → ℕ × Entry
nii code mode = (code, record { cycles = 1; op = Op.extension; mode = mode; base = false })

-- The base instructions.
bis_table : List (ℕ × Entry)
bis_table =
    bis 0x00 7 Op.brk Mode.implied
    ∷ bis 0x01 6 Op.ora Mode.indirect_x
    ∷ bis 0x05 3 Op.ora Mode.zero_page
    ∷ bis 0x06 5 Op.asl Mode.zero_page
    ∷ bis 0x08 3 Op.php Mode.implied
    ∷ bis 0x09 2 Op.ora Mode.immediate
    ∷ bis 0x0a 2 Op.asla Mode.implied
    ∷ bis 0x0d 4 Op.ora Mode.absolute
    ∷ bis 0x0e 6 Op.asl Mode.absolute
    ∷ bis 0x10 2 Op.bpl Mode.relative
    ∷ bis 0x11 5 Op.ora Mode.indirect_y
    ∷ bis 0x15 4 Op.ora Mode.zero_page_x
    ∷ bis 0x16 6 Op.asl Mode.zero_page_x
    ∷ bis 0x18 2 Op.clc Mode.implied
    ∷ bis 0x19 4 Op.ora Mode.absolute_y
    ∷ bis 0x1d 4 Op.ora Mode.absolute_x
    ∷ bis 0x1e 7 Op.asl Mode.absolute_x
    ∷ bis 0x20 6 Op.jsr Mode.absolute
    ∷ bis 0x21 6 Op.and Mode.indirect_x
    ∷ bis 0x24 3 Op.bit Mode.zero_page
    ∷ bis 0x25 3 Op.and Mode.zero_page
    ∷ bis 0x26 5 Op.rol Mode.zero_page
    ∷ bis 0x28 4 Op.plp Mode.implied
    ∷ bis 0x29 2 Op.and Mode.immediate
    ∷ bis 0x2a 2 Op.rola Mode.implied
    ∷ bis 0x2c 4 Op.bit Mode.absolute
    ∷ bis 0x2d 2 Op.and Mode.absolute
    ∷ bis 0x2e 6 Op.rol Mode.absolute
    ∷ bis 0x30 2 Op.bmi Mode.relative
    ∷ bis 0x31 5 Op.and Mode.indirect_y
    ∷ bis 0x35 4 Op.and Mode.zero_page_x
    ∷ bis 0x36 6 Op.rol Mode.zero_page_x
    ∷ bis 0x38 2 Op.sec Mode.implied
    ∷ bis 0x39 4 Op.and Mode.absolute_y
    ∷ bis 0x3d 4 Op.and Mode.absolute_x
    ∷ bis 0x3e 7 Op.rol Mode.absolute_x
    ∷ bis 0x40 6 Op.rti Mode.implied
    ∷ bis 0x41 6 Op.eor Mode.indirect_x
    ∷ bis 0x45 3 Op.eor Mode.zero_page
    ∷ bis 0x46 5 Op.lsr Mode.zero_page
    ∷ bis 0x48 3 Op.pha Mode.implied
    ∷ bis 0x49 2 Op.eor Mode.immediate
    ∷ bis 0x4a 2 Op.lsra Mode.implied
    ∷ bis 0x4c 3 Op.jmp Mode.absolute
    ∷ bis 0x4d 4 Op.eor Mode.absolute
    ∷ bis 0x4e 6 Op.lsr Mode.absolute
    ∷ bis 0x50 2 Op.bvc Mode.relative
    ∷ bis 0x51 5 Op.eor Mode.indirect_y
    ∷ bis 0x55 4 Op.eor Mode.zero_page_x
    ∷ bis 0x56 6 Op.lsr Mode.zero_page_x
    ∷ bis 0x58 2 Op.cli Mode.implied
    ∷ bis 0x59 4 Op.eor Mode.absolute_y
    ∷ bis 0x5d 4 Op.eor Mode.absolute_x
    ∷ bis 0x5e 7 Op.lsr Mode.absolute_x
    ∷ bis 0x60 6 Op.rts Mode.implied
    ∷ bis 0x61 6 Op.adc Mode.indirect_x
    ∷ bis 0x65 3 Op.adc Mode.zero_page
    ∷ bis 0x66 5 Op.ror Mode.zero_page
    ∷ bis 0x68 4 Op.pla Mode.implied
    ∷ bis 0x69 2 Op.adc Mode.immediate
    ∷ bis 0x6a 2 Op.rora Mode.implied
    ∷ bis 0x6c 5 Op.jmp Mode.indirect
    ∷ bis 0x6d 4 Op.adc Mode.absolute
    ∷ bis 0x6e 6 Op.ror Mode.absolute
    ∷ bis 0x70 2 Op.bvs Mode.relative
    ∷ bis 0x71 5 Op.adc Mode.indirect_y
    ∷ bis 0x75 4 Op.adc Mode.zero_page_x
    ∷ bis 0x76 6 Op.ror Mode.zero_page_x
    ∷ bis 0x78 2 Op.sei Mode.implied
    ∷ bis 0x79 4 Op.adc Mode.absolute_y
    ∷ bis 0x7d 4 Op.adc Mode.absolute_x
    ∷ bis 0x7e 7 Op.ror Mode.absolute_x
    ∷ bis 0x81 6 Op.sta Mode.indirect_x
    ∷ bis 0x84 3 Op.sty Mode.zero_page
    ∷ bis 0x85 3 Op.sta Mode.zero_page
    ∷ bis 0x86 3 Op.stx Mode.zero_page
    ∷ bis 0x88 2 Op.dey Mode.implied
    ∷ bis 0x8a 2 Op.txa Mode.implied
    ∷ bis 0x8c 4 Op.sty Mode.absolute
    ∷ bis 0x8d 4 Op.sta Mode.absolute
    ∷ bis 0x8e 4 Op.stx Mode.absolute
    ∷ bis 0x90 2 Op.bcc Mode.relative
    ∷ bis 0x91 6 Op.sta Mode.indirect_y
    ∷ bis 0x94 4 Op.sty Mode.zero_page_x
    ∷ bis 0x95 4 Op.sta Mode.zero_page_x
    ∷ bis 0x96 4 Op.stx Mode.zero_page_y
    ∷ bis 0x98 2 Op.tya Mode.implied
    ∷ bis 0x99 5 Op.sta Mode.absolute_y
    ∷ bis 0x9a 2 Op.txs Mode.implied
    ∷ bis 0x9d 5 Op.sta Mode.absolute_x
    ∷ bis 0xa0 2 Op.ldy Mode.immediate
    ∷ bis 0xa1 6 Op.lda Mode.indirect_x
    ∷ bis 0xa2 2 Op.ldx Mode.immediate
    ∷ bis 0xa4 3 Op.ldy Mode.zero_page
    ∷ bis 0xa5 3 Op.lda Mode.zero_page
    ∷ bis 0xa6 3 Op.ldx Mode.zero_page
    ∷ bis 0xa8 2 Op.tay Mode.implied
    ∷ bis 0xa9 2 Op.lda Mode.immediate
    ∷ bis 0xaa 2 Op.tax Mode.implied
    ∷ bis 0xac 4 Op.ldy Mode.absolute
    ∷ bis 0xad 4 Op.lda Mode.absolute
    ∷ bis 0xae 4 Op.ldx Mode.absolute
    ∷ bis 0xb0 2 Op.bcs Mode.relative
    ∷ bis 0xb1 5 Op.lda Mode.indirect_y
    ∷ bis 0xb4 4 Op.ldy Mode.zero_page_x
    ∷ bis 0xb5 4 Op.lda Mode.zero_page_x
    ∷ bis 0xb6 4 Op.ldx Mode.zero_page_y
    ∷ bis 0xb8 2 Op.clv Mode.implied
    ∷ bis 0xb9 4 Op.lda Mode.absolute_y
    ∷ bis 0xba 2 Op.tsx Mode.implied
    ∷ bis 0xbc 4 Op.ldy Mode.absolute_x
    ∷ bis 0xbd 4 Op.lda Mode.absolute_x
    ∷ bis 0xbe 4 Op.ldx Mode.absolute_y
    ∷ bis 0xc0 2 Op.cpy Mode.immediate
    ∷ bis 0xc1 6 Op.cmp Mode.indirect_x
    ∷ bis 0xc4 3 Op.cpy Mode.zero_page
    ∷ bis 0xc5 3 Op.cmp Mode.zero_page
    ∷ bis 0xc6 5 Op.dec Mode.zero_page
    ∷ bis 0xc8 2 Op.iny Mode.implied
    ∷ bis 0xc9 2 Op.cmp Mode.immediate
    ∷ bis 0xca 2 Op.dex Mode.implied
    ∷ bis 0xcc 4 Op.cpy Mode.absolute
    ∷ bis 0xcd 4 Op.cmp Mode.absolute
    ∷ bis 0xce 6 Op.dec Mode.absolute
    ∷ bis 0xd0 2 Op.bne Mode.relative
    ∷ bis 0xd1 5 Op.cmp Mode.indirect_y
    ∷ bis 0xd5 4 Op.cmp Mode.zero_page_x
    ∷ bis 0xd6 6 Op.dec Mode.zero_page_x
    ∷ bis 0xd8 2 Op.cld Mode.implied
    ∷ bis 0xd9 4 Op.cmp Mode.absolute_y
    ∷ bis 0xdd 4 Op.cmp Mode.absolute_x
    ∷ bis 0xde 7 Op.dec Mode.absolute_x
    ∷ bis 0xe0 2 Op.cpx Mode.immediate
    ∷ bis 0xe1 6 Op.sbc Mode.indirect_x
    ∷ bis 0xe4 3 Op.cpx Mode.zero_page
    ∷ bis 0xe5 3 Op.sbc Mode.zero_page
    ∷ bis 0xe6 5 Op.inc Mode.zero_page
    ∷ bis 0xe8 2 Op.inx Mode.implied
    ∷ bis 0xe9 2 Op.sbc Mode.immediate
    ∷ bis 0xea 2 Op.nop Mode.implied
    ∷ bis 0xec 4 Op.cpx Mode.absolute
    ∷ bis 0xed 4 Op.sbc Mode.absolute
    ∷ bis 0xee 6 Op.inc Mode.absolute
    ∷ bis 0xf0 2 Op.beq Mode.relative
    ∷ bis 0xf1 5 Op.sbc Mode.indirect_y
    ∷ bis 0xf5 4 Op.sbc Mode.zero_page_x
    ∷ bis 0xf6 6 Op.inc Mode.zero_page_x
    ∷ bis 0xf8 2 Op.sed Mode.implied
    ∷ bis 0xf9 4 Op.sbc Mode.absolute_y
    ∷ bis 0xfd 4 Op.sbc Mode.absolute_x
    ∷ bis 0xfe 7 Op.inc Mode.absolute_x
    ∷ []

-- Instructions of other chips of the family.
eis_table : List (ℕ × Entry)
eis_table =
    eis 0x03 8 Op.aso Mode.indirect_x
    ∷ eis 0x07 5 Op.aso Mode.zero_page
    ∷ eis 0x0f 6 Op.aso Mode.absolute
    ∷ eis 0x13 8 Op.aso Mode.indirect_y
    ∷ eis 0x17 6 Op.aso Mode.zero_page_x
    ∷ eis 0x1b 7 Op.aso Mode.absolute_y
    ∷ eis 0x1f 7 Op.aso Mode.absolute_x
    ∷ eis 0x23 8 Op.rla Mode.indirect_x
    ∷ eis 0x27 5 Op.rla Mode.zero_page
    ∷ eis 0x2f 6 Op.rla Mode.absolute
    ∷ eis 0x33 8 Op.rla Mode.indirect_y
    ∷ eis 0x37 6 Op.rla Mode.zero_page_x
    ∷ eis 0x3b 7 Op.rla Mode.absolute_y
    ∷ eis 0x3f 7 Op.rla Mode.absolute_x
    ∷ eis 0x43 8 Op.lse Mode.indirect_x
    ∷ eis 0x47 5 Op.lse Mode.zero_page
    ∷ eis 0x4f 6 Op.lse Mode.absolute
    ∷ eis 0x53 8 Op.lse Mode.indirect_y
    ∷ eis 0x57 6 Op.lse Mode.zero_page_x
    ∷ eis 0x5b 7 Op.lse Mode.absolute_y
    ∷ eis 0x5f 7 Op.lse Mode.absolute_x
    ∷ eis 0x63 8 Op.rra Mode.indirect_x
    ∷ eis 0x67 5 Op.rra Mode.zero_page
    ∷ eis 0x6f 6 Op.rra Mode.absolute
    ∷ eis 0x73 8 Op.rra Mode.indirect_y
    ∷ eis 0x77 6 Op.rra Mode.zero_page_x
    ∷ eis 0x7b 7 Op.rra Mode.absolute_y
    ∷ eis 0x7f 7 Op.rra Mode.absolute_x
    ∷ eis 0x83 6 Op.axs Mode.indirect_x
    ∷ eis 0x87 3 Op.axs Mode.zero_page
    ∷ eis 0x8f 4 Op.axs Mode.absolute
    ∷ eis 0x93 6 Op.axa Mode.indirect_y
    ∷ eis 0x97 4 Op.axs Mode.zero_page_y
    ∷ eis 0x9f 5 Op.axa Mode.absolute_y
    ∷ eis 0xa3 6 Op.lax Mode.indirect_x
    ∷ eis 0xa7 3 Op.lax Mode.zero_page
    ∷ eis 0xaf 4 Op.lax Mode.absolute
    ∷ eis 0xb3 5 Op.lax Mode.indirect_y
    ∷ eis 0xb7 4 Op.lax Mode.zero_page_y
    ∷ eis 0xbf 4 Op.lax Mode.absolute_y
    ∷ eis 0xc3 8 Op.dcm Mode.indirect_x
    ∷ eis 0xc7 5 Op.dcm Mode.zero_page
    ∷ eis 0xcf 6 Op.dcm Mode.absolute
    ∷ eis 0xd3 8 Op.dcm Mode.indirect_y
    ∷ eis 0xd7 6 Op.dcm Mode.zero_page_x
    ∷ eis 0xdb 7 Op.dcm Mode.absolute_y
    ∷ eis 0xdf 7 Op.dcm Mode.absolute_x
    ∷ eis 0xe3 8 Op.ins Mode.indirect_x
    ∷ eis 0xe7 5 Op.ins Mode.zero_page
    ∷ eis 0xeb 2 Op.sbc Mode.immediate
    ∷ eis 0xef 6 Op.ins Mode.absolute
    ∷ eis 0xf3 8 Op.ins Mode.indirect_y
    ∷ eis 0xf7 6 Op.ins Mode.zero_page_x
    ∷ eis 0xfb 7 Op.ins Mode.absolute_y
    ∷ eis 0xff 7 Op.ins Mode.absolute_x
    ∷ []

-- Opcodes that only skip their argument.
nii_table : List (ℕ × Entry)
nii_table =
    nii 0x04 Mode.zero_page
    ∷ nii 0x0c Mode.absolute
    ∷ nii 0x14 Mode.zero_page_x
    ∷ nii 0x1a Mode.implied
    ∷ nii 0x1c Mode.absolute_x
    ∷ nii 0x34 Mode.zero_page_x
    ∷ nii 0x3a Mode.implied
    ∷ nii 0x3c Mode.absolute_x
    ∷ nii 0x44 Mode.zero_page
    ∷ nii 0x54 Mode.zero_page_x
    ∷ nii 0x5a Mode.implied
    ∷ nii 0x5c Mode.absolute_x
    ∷ nii 0x64 Mode.zero_page
    ∷ nii 0x74 Mode.zero_page_x
    ∷ nii 0x7a Mode.implied
    ∷ nii 0x7c Mode.absolute_x
    ∷ nii 0x80 Mode.immediate
    ∷ nii 0xd4 Mode.zero_page_x
    ∷ nii 0xda Mode.implied
    ∷ nii 0xdc Mode.absolute_x
    ∷ nii 0xf4 Mode.zero_page_x
    ∷ nii 0xfa Mode.implied
    ∷ nii 0xfc Mode.absolute_x
    ∷ []

-- The four arrays, indexed by the opcode; `none` is the null pointer of an unset entry.
abbrev pub Table : Type 0
Table = ℕ → Option Entry

-- The assignments in their order: a later one covers an earlier.
install : List (ℕ × Entry) → Table → Table
install [] t = t
install ((code, entry) ∷ rows) t = install rows (λ i. if i == code then some entry else t i)

unfoldable pub cpu_op_table : Table
unfolding bis_table eis_table nii_table install
cpu_op_table = install (bis_table ++ (eis_table ++ nii_table)) (λ _. none)
