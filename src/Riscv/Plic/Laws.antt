-- ===== src/Riscv/Plic/Laws.antt =====
-- The enable bits of the interrupt controller.
use Prim.Native.Nat.{differ}
use wukong_am.Base.{ℕ, zero, suc, ◌∙◌, ap, false, ◌-◌, ◌%◌, ◌^◌, ◌<◌, ◌≡◌, refl, arith, ◌==◌, ◌&&◌}
use wukong_am.Base.{if◌then◌else◌, bit_or, bit_xor, Bool-cases, inl, inr}
use wukong_am.Base.Bytes.{Array}
use wukong_am.Base.Bits.{bit, bit-lt, bit-bit_or, bit-bit_xor, bit-two_pow, bit-mod}
use wukong_am.Riscv.Plic.{enable_word, plic_enable, plic_disable}

-- The enable bit of interrupt `j` in context `d`.
abbrev pub enabled : Array → ℕ → ℕ → ℕ
enabled m d j = bit (m (enable_word d j)) (j % 32)

-- One bit of a word, set and toggled.
set_bit : (w i j : ℕ) → j < 32 → bit (bit_or w (2 ^ i) % 2 ^ 32) j ≡ (if i == j then 1 else bit w j)
set_bit w i j h =
    ground (
      arith,
      bit-mod 32 (bit_or w (2 ^ i)) j h,
      bit-bit_or w (2 ^ i) j,
      bit-two_pow i j,
      bit-lt w j,
    )

toggle_bit :
    (w i j : ℕ)
    → j < 32
    → bit (bit_xor w (2 ^ i) % 2 ^ 32) j ≡ (if i == j then 1 - bit w j else bit w j)
toggle_bit w i j h = elim (Bool-cases (i == j)) [
  | inl same ↦
      bit-mod 32 (bit_xor w (2 ^ i)) j h
      ∙ bit-bit_xor w (2 ^ i) j
      ∙ rw (bit-two_pow i j, same) (flip (bit w j) (bit-lt w j))
  | inr other ↦
      bit-mod 32 (bit_xor w (2 ^ i)) j h
      ∙ bit-bit_xor w (2 ^ i) j
      ∙ rw (bit-two_pow i j, other) (stay (bit w j) (bit-lt w j))
]
  where
    flip : (x : ℕ) → x < 2 → differ x 1 ≡ 1 - x
    flip zero k = refl
    flip (suc zero) k = refl
    flip (suc (suc x)) k = absurd (omega arith)

    stay : (x : ℕ) → x < 2 → differ x 0 ≡ x
    stay zero k = refl
    stay (suc zero) k = refl
    stay (suc (suc x)) k = absurd (omega arith)

-- Different interrupts have different bits.
words :
    (c d i j : ℕ)
    → i < 1024
    → j < 1024
    → ((enable_word d j == enable_word c i) && (i % 32 == j % 32)) ≡ ((c == d) && (i == j))
words c d i j h k = ground arith

-- `plic_enable` sets the enable bit of its interrupt in its context and keeps all others, and
-- `plic_disable` toggles it and keeps all others; interrupts are below 1024.
pub plic_enable_lem :
    (m : Array) (c d i j : ℕ)
    → i < 1024
    → j < 1024
    → (enabled (plic_enable m c i) d j ≡ (if (c == d) && (i == j) then 1 else enabled m d j))
      × (enabled (plic_disable m c i) d j
          ≡ (if (c == d) && (i == j) then 1 - enabled m d j else enabled m d j))
unfolding plic_enable plic_disable
plic_enable_lem m c d i j h k =
    let w = m (enable_word c i) in
    let set = set_bit w (i % 32) (j % 32) (omega arith) in
    let toggle = toggle_bit w (i % 32) (j % 32) (omega arith) in
    let distinct = words c d i j h k in
    elim (Bool-cases (enable_word d j == enable_word c i)) [
      | inl same ↦
          let cell : m (enable_word d j) ≡ w = ap m (ground arith) in
          let bits : (i % 32 == j % 32) ≡ ((c == d) && (i == j)) = rw same at distinct in
          rw (← bits, same, cell) (set, toggle)
      | inr other ↦
          let bits : false ≡ ((c == d) && (i == j)) = rw other at distinct in
          rw (← bits, other) (refl, refl)
    ]
