-- ===== src/Base/Bits/Step.antt =====
-- The lowest digit of each bitwise operation, from the recursion on binary digits that the native
-- operation stands for.
use Prim.Native.Nat.{digits, bitwise, bit_and-bitwise, bit_or-bitwise, bit_xor-bitwise, differ}
use wukong_am.Base.{ℕ, zero, suc, ◌+◌, ◌*◌, ◌/◌, ◌%◌, ◌≤◌, ◌≡◌, refl, sym, ap, ◌∙◌, arith}
use wukong_am.Base.{min, max, bit_and, bit_or, bit_xor}

module _ (edge : ℕ → ℕ) (join : ℕ → ℕ → ℕ) where
  -- Zero has no digits.
  no_digits : (fuel b : ℕ) → digits edge join fuel 0 b ≡ edge b
  no_digits zero b = refl
  no_digits (suc fuel) b = refl

  -- Fuel beyond the first operand is not used.
  spare_fuel :
      (a b need more : ℕ)
      → a ≤ need
      → need ≤ more
      → digits edge join more a b ≡ digits edge join need a b
  spare_fuel zero b need more h k = no_digits more b ∙ sym (no_digits need b)
  spare_fuel (suc a) b zero more h k = absurd (omega arith)
  spare_fuel (suc a) b (suc need) zero h k = absurd (omega arith)
  spare_fuel (suc a) b (suc need) (suc more) h k =
      ap (λ high. high * 2 + join (suc a % 2) (b % 2))
        (spare_fuel (suc a / 2) (b / 2) need more (omega arith) (omega arith))

  lowest_digit :
      (a b : ℕ)
      → join (suc a % 2) (b % 2) + 2 * bitwise edge join (suc a / 2) (b / 2)
        ≡ bitwise edge join (suc a) b
  lowest_digit a b =
      let half = suc a / 2 in
      let enough = spare_fuel half (b / 2) half a (omega arith) (omega arith) in
      omega (arith, enough)

pub zero-bit_and : (b : ℕ) → bit_and 0 b ≡ 0
zero-bit_and = bit_and-bitwise 0

pub bit_xor_step : (a b : ℕ) → differ (a % 2) (b % 2) + 2 * bit_xor (a / 2) (b / 2) ≡ bit_xor a b
bit_xor_step (suc a) b = simp bit_xor-bitwise (lowest_digit (λ high. high) differ a b)
bit_xor_step zero b = simp bit_xor-bitwise (omega arith)

pub bit_and_step : (a b : ℕ) → min (a % 2) (b % 2) + 2 * bit_and (a / 2) (b / 2) ≡ bit_and a b
bit_and_step (suc a) b = simp bit_and-bitwise (lowest_digit (λ high. zero) min a b)
bit_and_step zero b = simp bit_and-bitwise (omega arith)

pub bit_or_step : (a b : ℕ) → max (a % 2) (b % 2) + 2 * bit_or (a / 2) (b / 2) ≡ bit_or a b
bit_or_step (suc a) b = simp bit_or-bitwise (lowest_digit (λ high. high) max a b)
bit_or_step zero b = simp bit_or-bitwise (omega arith)
