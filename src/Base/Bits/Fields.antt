-- ===== src/Base/Bits/Fields.antt =====
-- Fields of a word: a value above the low `k` bits, joined and cut off.
use native.Mathlib.Nat.{pow-suc, div-div-eq-div-mul, mul_assoc, mul_left_comm, mod-eq_of_lt}
use wukong_am.Base.{
  ℕ, zero, suc, ◌+◌, ◌-◌, ◌*◌, ◌/◌, ◌%◌, ◌^◌, ◌≤◌, ◌<◌, ◌≡◌, refl, sym, ap, ◌∙◌, arith,
}
use wukong_am.Base.{bit_and, bit_or}
use wukong_am.Base.Bits.{bit_or_digit, bit_and_digit, bit_and_mask}

bit_or-zero : (n a : ℕ) → a ≤ n → bit_or a 0 ≡ a
bit_or-zero zero a h = let e : a ≡ 0 = omega arith in rw e refl
bit_or-zero (suc n) a h = omega (arith, bit_or_digit a 0, bit_or-zero n (a / 2) (omega arith))

pub zero-bit_or : (n a : ℕ) → a ≤ n → bit_or 0 a ≡ a
zero-bit_or zero a h = let e : a ≡ 0 = omega arith in rw e refl
zero-bit_or (suc n) a h = omega (arith, bit_or_digit 0 a, zero-bit_or n (a / 2) (omega arith))

-- Joining a value below `2 ^ k` and a multiple of `2 ^ k` is adding them.
pub bit_or-field : (k a b : ℕ) → a < 2 ^ k → bit_or a (b * 2 ^ k) ≡ a + b * 2 ^ k
bit_or-field zero a b h =
    let e : a ≡ 0 = omega arith in
    ap (λ t. bit_or t (b * 2 ^ 0)) e
    ∙ zero-bit_or (b * 2 ^ 0) (b * 2 ^ 0) (omega arith)
    ∙ omega arith
bit_or-field (suc k) a b h =
    let wide : b * 2 ^ suc k ≡ b * (2 * 2 ^ k) = ap (λ t. b * t) (pow-suc 2 k ∙ omega arith) in
    let half : b * 2 ^ suc k / 2 ≡ b * 2 ^ k = omega (arith, wide) in
    let rest : bit_or (a / 2) (b * 2 ^ suc k / 2) ≡ a / 2 + b * 2 ^ k =
      rw half (bit_or-field k (a / 2) b (omega (arith, pow-suc 2 k))) in
    omega (arith, bit_or_digit a (b * 2 ^ suc k), rest, wide)

-- Clearing the low `k` bits of a word of `k + w` bits.
pub bit_and_high :
    (k w x : ℕ) → x < 2 ^ k * 2 ^ w → bit_and x (2 ^ k * 2 ^ w - 2 ^ k) ≡ x / 2 ^ k * 2 ^ k
bit_and_high zero w x h =
    let whole : 2 ^ 0 * 2 ^ w - 2 ^ 0 ≡ 2 ^ w - 1 = omega arith in
    let small : x % 2 ^ w ≡ x = mod-eq_of_lt (omega arith) in
    ap (bit_and x) whole ∙ bit_and_mask w x ∙ small ∙ omega arith
bit_and_high (suc k) w x h =
    let power : 2 ^ suc k ≡ 2 * 2 ^ k = pow-suc 2 k ∙ omega arith in
    let wide : 2 ^ suc k * 2 ^ w ≡ 2 * (2 ^ k * 2 ^ w) =
      ap (λ t. t * 2 ^ w) power ∙ mul_assoc 2 (2 ^ k) (2 ^ w) in
    let half : (2 ^ suc k * 2 ^ w - 2 ^ suc k) / 2 ≡ 2 ^ k * 2 ^ w - 2 ^ k =
      omega (arith, wide, power) in
    let rest : bit_and (x / 2) ((2 ^ suc k * 2 ^ w - 2 ^ suc k) / 2) ≡ x / 2 / 2 ^ k * 2 ^ k =
      rw half (bit_and_high k w (x / 2) (omega (arith, wide))) in
    let cut : x / 2 / 2 ^ k ≡ x / 2 ^ suc k =
      div-div-eq-div-mul x 2 (2 ^ k) ∙ ap (λ d. x / d) (sym power) in
    let scaled : x / 2 ^ suc k * 2 ^ suc k ≡ 2 * (x / 2 / 2 ^ k * 2 ^ k) =
      rw cut (ap (λ t. x / 2 ^ suc k * t) power ∙ mul_left_comm (x / 2 ^ suc k) 2 (2 ^ k)) in
    omega (arith, bit_and_digit x (2 ^ suc k * 2 ^ w - 2 ^ suc k), rest, scaled, wide, power)

bit_or_swap : (n a b : ℕ) → a ≤ n → b ≤ n → bit_or a b ≡ bit_or b a
bit_or_swap zero a b h k =
    let e : a ≡ 0 = omega arith in let e' : b ≡ 0 = omega arith in rw (e, e') refl
bit_or_swap (suc n) a b h k = omega (
  arith,
  bit_or_digit a b,
  bit_or_digit b a,
  bit_or_swap n (a / 2) (b / 2) (omega arith) (omega arith),
)

pub bit_or_comm : (a b : ℕ) → bit_or a b ≡ bit_or b a
bit_or_comm a b = bit_or_swap (a + b) a b (omega arith) (omega arith)
