-- ===== src/Riscv/Pmp/Config.antt =====
-- What the instructions of `enable_pmp` leave in the registers, by the privileged architecture.
use wukong_am.Base.{ℕ, ◌+◌, ◌-◌, ◌*◌, ◌%◌, ◌^◌}
use wukong_am.Base.{ltb, if◌then◌else◌, bit_or, bit_and, List, [], ◌∷◌}
use wukong_am.Base.Bytes.{write}
use wukong_am.Base.Bits.{bit}
use wukong_am.Riscv.Pmp.{Instruction, csrw, csrs, csrc, sfence_vma}

-- The registers after instructions, from what they held before, where no lock protects them.
pub run : List Instruction → (ℕ → ℕ) → ℕ → ℕ
run [] csr = csr
run (csrw n v ∷ rest) csr = run rest (write csr n v)
run (csrs n v ∷ rest) csr = run rest (write csr n (bit_or (csr n) v))
run (csrc n v ∷ rest) csr = run rest (write csr n (bit_and (csr n) (2 ^ 64 - 1 - v)))
run (sfence_vma ∷ rest) csr = run rest csr

-- Bit `t` of the configuration byte of entry `i`: with 64 bits, 8 bytes in each of the registers 0x3a0
-- and 0x3a2. Bits 0 to 2 are the permission, bits 3 and 4 the mode, of which 3 is the region of a power
-- of two, and bit 7 the lock.
abbrev pub config_register : ℕ → ℕ
config_register i = 0x3a0 + (if ltb 7 i then 2 else 0)

abbrev pub config_bit : (ℕ → ℕ) → ℕ → ℕ → ℕ
config_bit csr i t = bit (csr (config_register i)) (i % 8 * 8 + t)
