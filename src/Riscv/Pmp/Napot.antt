-- ===== src/Riscv/Pmp/Napot.antt =====
-- The NAPOT encoding of a protected region, against the rule by which the hardware reads it.
use native.Mathlib.Nat.{
  pow-suc, one-le-pow, div-div-eq-div-mul, div-eq_of_lt-le, div-mul-le_self, lt-mul-div-succ,
  mod_self,
}
use wukong_am.Base.{ℕ, zero, suc, ◌+◌, ◌-◌, ◌*◌, ◌/◌, ◌%◌, ◌^◌, ◌<◌, ◌≤◌, ◌≡◌, refl, ap, ◌∙◌, arith}
use wukong_am.Base.{
  Bool, true, false, ◌&&◌, ◌==◌, leb, ltb, if◌then◌else◌, bit_or, bit_and, u64, ◌<<<◌,
}
use wukong_am.Base.{some, [], ◌∷◌}
use wukong_am.Base.Bits.{bit_or_digit, bit_and_mask, two_pow-lt}
use wukong_am.Base.{Bool-cases, inl, inr}
use wukong_am.Riscv.Pmp.{
  csrw, csrs, sfence_vma, napot_address, enable_pmp, csr_write_num, csr_set_num, set_config,
  is_case,
}

-- The rule of the privileged architecture, on word addresses: the trailing ones of an entry and the
-- zero before them do not take part in the comparison.
pub covers : ℕ → ℕ → ℕ → Bool
covers zero entry word = false
covers (suc fuel) entry word =
    let rest = covers fuel (entry / 2) (word / 2) in
    if entry % 2 == 1 then rest else entry / 2 == word / 2

bit_or-zero : (n a : ℕ) → a ≤ n → bit_or a 0 ≡ a
bit_or-zero zero a h = let e : a ≡ 0 = omega arith in rw e refl
bit_or-zero (suc n) a h = omega (arith, bit_or_digit a 0, bit_or-zero n (a / 2) (omega arith))

-- Ones below a multiple of a power of two.
ones : (j b : ℕ) → bit_or (b * 2 ^ suc j) (2 ^ j - 1) ≡ b * 2 ^ suc j + (2 ^ j - 1)
ones zero b = omega (arith, bit_or-zero (b * 2) (b * 2) (omega arith))
ones (suc j) b =
    let wide : b * 2 ^ suc (suc j) ≡ b * (2 * 2 ^ suc j) =
      ap (λ t. b * t) (pow-suc 2 (suc j) ∙ omega arith) in
    let half : b * 2 ^ suc (suc j) / 2 ≡ b * 2 ^ suc j = omega (arith, wide) in
    let low : (2 ^ suc j - 1) / 2 ≡ 2 ^ j - 1 = omega (arith, pow-suc 2 j) in
    let digit = bit_or_digit (b * 2 ^ suc (suc j)) (2 ^ suc j - 1) in
    let rest : bit_or (b * 2 ^ suc (suc j) / 2) ((2 ^ suc j - 1) / 2)
        ≡ b * 2 ^ suc j + (2 ^ j - 1) =
      rw (half, low) (ones j b) in
    omega (arith, digit, rest, wide, pow-suc 2 j, one-le-pow j 2 (omega arith))

-- The rule on such an entry compares the digits above the ones.
covers-ones :
    (fuel j b word : ℕ)
    → j < fuel
    → covers fuel (b * 2 ^ suc j + (2 ^ j - 1)) word ≡ (b == word / 2 ^ suc j)
unfolding covers
covers-ones zero j b word h = absurd (omega arith)
covers-ones (suc fuel) zero b word h = ground arith
covers-ones (suc fuel) (suc j) b word h =
    let wide : b * 2 ^ suc (suc j) ≡ b * (2 * 2 ^ suc j) =
      ap (λ t. b * t) (pow-suc 2 (suc j) ∙ omega arith) in
    let entry = b * 2 ^ suc (suc j) + (2 ^ suc j - 1) in
    let odd : entry % 2 ≡ 1 = omega (arith, wide, pow-suc 2 j, one-le-pow j 2 (omega arith)) in
    let half : entry / 2 ≡ b * 2 ^ suc j + (2 ^ j - 1) =
      omega (arith, wide, pow-suc 2 j, one-le-pow j 2 (omega arith)) in
    let shifted : word / 2 / 2 ^ suc j ≡ word / 2 ^ suc (suc j) =
      div-div-eq-div-mul word 2 (2 ^ suc j)
      ∙ ap (λ d. word / d) (omega (arith, pow-suc 2 (suc j))) in
    rw (odd, half) (covers-ones fuel j b (word / 2) (omega arith) ∙ ap (λ w. b == w) shifted)

-- The entry of a region of `2 ^ (k + 3)` bytes at a multiple of its size.
entry_lem :
    (k b : ℕ)
    → k < 61
    → napot_address (b * 2 ^ suc (suc (suc k))) (2 ^ suc (suc (suc k))) / 4
      ≡ b * 2 ^ suc k + (2 ^ k - 1)
unfolding napot_address
entry_lem k b h =
    let n = suc (suc k) in
    let half : 2 ^ suc n / 2 ≡ 2 ^ n = omega (arith, pow-suc 2 n) in
    let other : (2 ^ suc n == 4) ≡ false =
      ground (arith, pow-suc 2 n, pow-suc 2 (suc k), pow-suc 2 k, one-le-pow k 2 (omega arith)) in
    let mask : u64 (2 ^ n + 2 ^ 64 - 1) ≡ 2 ^ n - 1 =
      omega (arith, two_pow-lt n 64 (omega arith), one-le-pow n 2 (omega arith)) in
    let powers : 2 ^ n ≡ 4 * 2 ^ k = omega (arith, pow-suc 2 (suc k), pow-suc 2 k) in
    let wide : b * 2 ^ suc n ≡ b * (4 * 2 ^ suc k) =
      ap (λ t. b * t) (omega (arith, pow-suc 2 n, pow-suc 2 (suc k), pow-suc 2 k)) in
    rw (other, half, mask, ones n b) (omega (arith, wide, powers, one-le-pow k 2 (omega arith)))

-- An address lies in the region if dividing by the size gives the region's number.
in_region :
    (b size x : ℕ) → 0 < size → (b == x / size) ≡ (leb (b * size) x && ltb x (b * size + size))
in_region b size x pos = elim (Bool-cases (leb (b * size) x && ltb x (b * size + size))) [
  | inl inside ↦
      let low : b * size ≤ x = ground arith in
      let high : x < (b + 1) * size = ground arith in
      let e : x / size ≡ b = div-eq_of_lt-le size low high in rw inside (ground (arith, e))
  | inr outside ↦ elim (Bool-cases (b == x / size)) [
    | inl same ↦
        let e : b ≡ x / size = ground arith in
        let low : b * size ≤ x = rw e (div-mul-le_self x size) in
        let high : x < b * size + size =
          omega (arith, lt-mul-div-succ x pos, ap (λ q. size * (q + 1)) e) in
        absurd (ground arith)
    | inr differ ↦ rw (outside, differ) refl
  ]
]

-- The address entry that `enable_pmp` writes for a region of `2 ^ (k + 3)` bytes, with `k` below 61,
-- that begins at a multiple of its size covers an address just if it lies in the region, by the rule
-- of the privileged architecture.
pub napot_address-covers :
    (k b x : ℕ)
    → k < 61
    → (let size = 2 ^ suc (suc (suc k)) in
        covers 64 (napot_address (b * size) size / 4) (x / 4)
        ≡ (leb (b * size) x && ltb x (b * size + size)))
napot_address-covers k b x h =
    let size = 2 ^ suc (suc (suc k)) in
    let four : 4 * 2 ^ suc k ≡ size = omega (arith, pow-suc 2 (suc (suc k)), pow-suc 2 (suc k)) in
    rw (entry_lem k b h) (
      covers-ones 64 k b (x / 4) (omega arith)
      ∙ ap (λ q. b == q) (div-div-eq-div-mul x 4 (2 ^ suc k) ∙ ap (λ d. x / d) four)
      ∙ in_region b size x (one-le-pow (suc (suc (suc k))) 2 (omega arith)))

-- Both registers are among the cases.
address_case : (reg : ℕ) → reg < 16 → is_case (0x3b0 + reg) ≡ true
unfolding is_case
address_case reg h = ground arith

config_case : (high : Bool) → is_case (0x3a0 + (if high then 2 else 0)) ≡ true
unfolding is_case
config_case true = refl
config_case false = refl

-- `enable_pmp` accepts every region of `2 ^ (k + 3)` bytes, with `k` below 61, and each of the 16
-- entries, and then writes the address entry, sets the configuration of the entry in the register
-- that holds it, and synchronises.
pub enable_pmp_lem :
    (k reg pmp_addr lock permission : ℕ)
    → k < 61
    → reg < 16
    → (let size = 2 ^ suc (suc (suc k)) in
        let set_content = bit_or (bit_or permission (lock <<< 7)) 24 in
        enable_pmp reg pmp_addr size lock permission
        ≡ some (
            csrw (0x3b0 + reg) (napot_address pmp_addr size / 4)
            ∷ csrs (0x3a0 + (if ltb 7 reg then 2 else 0)) (u64 (set_content <<< (reg % 8 * 8)))
            ∷ sfence_vma
            ∷ []))
unfolding enable_pmp csr_write_num csr_set_num set_config
enable_pmp_lem k reg pmp_addr lock permission h r =
    let n = suc (suc (suc k)) in
    let pos = one-le-pow n 2 (omega arith) in
    let less : u64 (2 ^ n + 2 ^ 64 - 1) ≡ 2 ^ n - 1 =
      omega (arith, two_pow-lt n 64 (omega arith), pos) in
    let power : bit_and (2 ^ n) (2 ^ n - 1) ≡ 0 = bit_and_mask n (2 ^ n) ∙ mod_self (2 ^ n) in
    let wide : (2 ^ n == 4) ≡ false = ground (
      arith,
      pow-suc 2 (suc (suc k)),
      pow-suc 2 (suc k),
      pow-suc 2 k,
      one-le-pow k 2 (omega arith),
    ) in
    let valid : ltb reg 16 ≡ true = ground arith in
    let place : bit_and reg 7 ≡ reg % 8 = bit_and_mask 3 reg in
    rw (less, power, wide, valid, place, address_case reg r, config_case (ltb 7 reg)) refl
