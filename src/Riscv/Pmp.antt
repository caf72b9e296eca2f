-- ===== src/Riscv/Pmp.antt =====
-- am/src/xs/isa/riscv/pmp.c and pma.c: the registers of physical memory protection. The functions
-- run privileged instructions, which are listed in the order in which they run; what a register
-- holds is a parameter.
pub mod Napot
pub mod Config
use wukong_am.Base.{ℕ, zero, suc, ◌+◌, ◌-◌, ◌*◌, ◌^◌, Bool, not, ◌&&◌, ◌||◌, ◌==◌, leb, ltb}
use wukong_am.Base.{Option, none, some, List, [], ◌∷◌, ◌++◌, if◌then◌else◌, bit_and, bit_or}
use wukong_am.Base.{of_bool, u64, ◌<<<◌, ◌>>>◌}

-- The instructions: write, set and clear a register, and synchronise.
pub data Instruction : Type 0 where
  csrw csrs csrc : ℕ → ℕ → Instruction
  sfence_vma : Instruction

abbrev pub pmpcfg_base : ℕ
pmpcfg_base = 0x3a0

abbrev pub pmpaddr_base : ℕ
pmpaddr_base = 0x3b0

abbrev pub pmp_count : ℕ
pmp_count = 16

-- The cases of the four `switch` statements: 16 configuration and 64 address registers.
pub is_case : ℕ → Bool
is_case csr_num =
    (leb 0x3a0 csr_num && ltb csr_num 0x3b0) || (leb 0x3b0 csr_num && ltb csr_num 0x3f0)

pub csr_read_num : (ℕ → ℕ) → ℕ → ℕ
csr_read_num csr csr_num = if is_case csr_num then csr csr_num else 0

pub csr_write_num : ℕ → ℕ → List Instruction
csr_write_num csr_num val = if is_case csr_num then csrw csr_num val ∷ [] else []

pub csr_set_num : ℕ → ℕ → List Instruction
csr_set_num csr_num val = if is_case csr_num then csrs csr_num val ∷ [] else []

pub csr_clear_num : ℕ → ℕ → List Instruction
csr_clear_num csr_num val = if is_case csr_num then csrc csr_num val ∷ [] else []

-- The loop of `init_pmp`, with `left` registers to go.
pub init_addresses : ℕ → ℕ → List Instruction
init_addresses zero i = []
init_addresses (suc left) i =
    csr_write_num (pmpaddr_base + i) (2 ^ 64 - 1) ++ init_addresses left (i + 1)

pub init_pmp : List Instruction
init_pmp = init_addresses pmp_count 0 ++ (csrw 0x3a2 31 ∷ sfence_vma ∷ [])

-- The configuration byte of register `pmp_reg`, at its place in its register of eight.
pub set_config : ℕ → ℕ → List Instruction
set_config pmp_reg set_content =
    let cfg_offset = if ltb 7 pmp_reg then 2 else 0 in
    let cfg_shift = bit_and pmp_reg 7 in
    csr_set_num (pmpcfg_base + cfg_offset) (u64 (set_content <<< (cfg_shift * 8)))

-- The address with its size in the low bits.
pub napot_address : ℕ → ℕ → ℕ
napot_address pmp_addr pmp_size =
    if pmp_size == 4 then pmp_addr else bit_or pmp_addr (u64 ((pmp_size >>> 1) + 2 ^ 64 - 1))

-- A failing assertion ends the program.
pub enable_pmp : ℕ → ℕ → ℕ → ℕ → ℕ → Option (List Instruction)
enable_pmp pmp_reg pmp_addr pmp_size lock permission =
    let set_content =
      bit_or (bit_or permission (lock <<< 7)) ((if pmp_size == 4 then 2 else 3) <<< 3) in
    if not (bit_and pmp_size (u64 (pmp_size + 2 ^ 64 - 1)) == 0)
    then none
    else if not (ltb pmp_reg pmp_count)
    then none
    else some (
        csr_write_num (pmpaddr_base + pmp_reg) (napot_address pmp_addr pmp_size >>> 2)
        ++ (set_config pmp_reg set_content ++ (sfence_vma ∷ [])))

pub enable_pmp_tor : ℕ → ℕ → ℕ → Bool → ℕ → Option (List Instruction)
enable_pmp_tor pmp_reg pmp_addr pmp_size lock permission =
    let set_content = bit_or (bit_or permission (of_bool lock <<< 7)) (1 <<< 3) in
    let bottom =
      if pmp_reg == 0 then [] else csr_write_num (pmpaddr_base + pmp_reg - 1) (pmp_addr >>> 2) in
    if not (ltb pmp_reg pmp_count)
    then none
    else some (
        csr_write_num (pmpaddr_base + pmp_reg) (u64 (pmp_addr + pmp_size) >>> 2)
        ++ (bottom ++ (set_config pmp_reg set_content ++ (sfence_vma ∷ []))))

pub disable_pmp : ℕ → List Instruction
disable_pmp pmp_reg = csr_write_num (pmpaddr_base + pmp_reg) (2 ^ 64 - 1) ++ (sfence_vma ∷ [])

-- The accessors of pma.c, of 16 address registers and 4 of configuration.
pub pma_get_addr : (ℕ → ℕ) → ℕ → ℕ
pma_get_addr csr addr_idx = if ltb addr_idx 16 then csr (0x3b0 + addr_idx) else 0

pub pma_get_cfg : (ℕ → ℕ) → ℕ → ℕ
pma_get_cfg csr cfg_idx = if ltb cfg_idx 4 then csr (0x3a0 + cfg_idx) else 0

pub pma_set_addr : ℕ → ℕ → List Instruction
pma_set_addr addr_idx val = if ltb addr_idx 16 then csrw (0x3b0 + addr_idx) val ∷ [] else []

pub pma_set_cfg : ℕ → ℕ → List Instruction
pma_set_cfg cfg_idx val = if ltb cfg_idx 4 then csrw (0x3a0 + cfg_idx) val ∷ [] else []
