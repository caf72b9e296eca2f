-- ===== src/Riscv/Plic.antt =====
-- am/src/xs/isa/riscv/plic.c: the driver of the interrupt controller, on the words of the device
-- memory, each at its address. An access reads or writes the word; what the device does by itself
-- is not part of the model.
pub mod Laws
use wukong_am.Base.{ℕ, ◌+◌, ◌-◌, ◌*◌, ◌/◌, ◌%◌, ◌^◌, bit_and, bit_or, bit_xor, u32, ◌<<<◌}
use wukong_am.Base.Bytes.{Array, write}

abbrev pub intr_gen_addr : ℕ
intr_gen_addr = 0x40070000

abbrev pub plic_base_addr : ℕ
plic_base_addr = 0x3c000000

abbrev pub plic_ext_intr_offset : ℕ
plic_ext_intr_offset = 1

abbrev pub intr_reg_addr : ℕ → ℕ
intr_reg_addr i = intr_gen_addr + (i <<< 2)

abbrev pub intr_reg_index : ℕ → ℕ
intr_reg_index i = intr_reg_addr (i / 32)

abbrev pub plic_priority : ℕ
plic_priority = plic_base_addr + 0x4

abbrev pub plic_enable_base : ℕ → ℕ
plic_enable_base c = plic_base_addr + 0x2000 + c * 0x80

abbrev pub plic_threshold : ℕ → ℕ
plic_threshold c = plic_base_addr + 0x200000 + c * 0x1000

abbrev pub plic_claim : ℕ → ℕ
plic_claim c = plic_base_addr + 0x200004 + c * 0x1000

-- `READ_INTR_REG(INTR_REG_INDEX(i))`, in which the address is computed twice: a pointer of 64 bits.
abbrev pub intr_source : ℕ → ℕ
intr_source i = intr_reg_addr (intr_reg_index i)

pub plic_get_claim : Array → ℕ → ℕ
plic_get_claim m current_context = m (plic_claim current_context)

-- `CLEAR_INTR(claim - PLIC_EXT_INTR_OFFSET)`, of a `uint32_t`.
pub plic_clear_intr : Array → ℕ → Array
plic_clear_intr m claim =
    let i = u32 (claim + 2 ^ 32 - plic_ext_intr_offset) in
    let word = m (intr_source i) in
    write m (intr_reg_index i) (u32 (bit_xor word (bit_and word (2 ^ (i % 32)))))

pub plic_clear_claim : Array → ℕ → ℕ → Array
plic_clear_claim m current_context claim = write m (plic_claim current_context) claim

pub plic_set_priority : Array → ℕ → ℕ → Array
plic_set_priority m intr priority = write m (plic_priority + intr * 4) priority

-- The word of the enable bits that holds the bit of `intr`.
abbrev pub enable_word : ℕ → ℕ → ℕ
enable_word current_context intr = plic_enable_base current_context + intr / 32 * 4

pub plic_enable : Array → ℕ → ℕ → Array
plic_enable m current_context intr =
    let word = enable_word current_context intr in
    write m word (u32 (bit_or (m word) (2 ^ (intr % 32))))

pub plic_disable : Array → ℕ → ℕ → Array
plic_disable m current_context intr =
    let word = enable_word current_context intr in
    write m word (u32 (bit_xor (m word) (2 ^ (intr % 32))))

pub plic_disable_word : Array → ℕ → ℕ → Array
plic_disable_word m current_context intr = write m (plic_enable_base current_context + intr / 8) 0

pub plic_set_threshold : Array → ℕ → ℕ → Array
plic_set_threshold m current_context threshold = write m (plic_threshold current_context) threshold

-- `SET_INTR(intr - PLIC_EXT_INTR_OFFSET)`, of a `uint32_t`.
pub plic_set_intr : Array → ℕ → Array
plic_set_intr m intr =
    let i = u32 (intr + 2 ^ 32 - plic_ext_intr_offset) in
    write m (intr_reg_index i) (u32 (bit_or (m (intr_source i)) (2 ^ (i % 32))))
