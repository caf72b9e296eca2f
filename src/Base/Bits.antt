-- ===== src/Base/Bits.antt =====
-- The bits of a number, and what the bitwise operations of C do to each of them.
pub mod Fields
mod Step
use Prim.Native.Nat.{differ}
use native.Mathlib.Nat.{pow-suc, pow-succ', one-le-pow}
use wukong_am.Base.{ℕ, zero, suc, ◌+◌, ◌-◌, ◌*◌, ◌/◌, ◌%◌, ◌^◌, ◌≤◌, ◌<◌, ◌≡◌, refl, min, max}
use wukong_am.Base.{
  ap, bit_and, bit_or, bit_xor, arith, ◌==◌, if◌then◌else◌, truthy, Bool, true, false,
}
use Step.{zero-bit_and, bit_and_step, bit_or_step, bit_xor_step}

-- The digit of weight `2 ^ j`.
abbrev pub bit : ℕ → ℕ → ℕ
bit a zero = a % 2
bit a (suc j) = bit (a / 2) j

pub bit-lt : (a j : ℕ) → bit a j < 2
bit-lt a zero = omega arith
bit-lt a (suc j) = bit-lt (a / 2) j

pub bit-bit_and : (a b j : ℕ) → bit (bit_and a b) j ≡ min (bit a j) (bit b j)
bit-bit_and a b zero = omega (arith, bit_and_step a b)
bit-bit_and a b (suc j) =
    let e : bit_and a b / 2 ≡ bit_and (a / 2) (b / 2) = omega (arith, bit_and_step a b) in
    rw e (bit-bit_and (a / 2) (b / 2) j)

pub bit-bit_or : (a b j : ℕ) → bit (bit_or a b) j ≡ max (bit a j) (bit b j)
bit-bit_or a b zero = omega (arith, bit_or_step a b)
bit-bit_or a b (suc j) =
    let e : bit_or a b / 2 ≡ bit_or (a / 2) (b / 2) = omega (arith, bit_or_step a b) in
    rw e (bit-bit_or (a / 2) (b / 2) j)

-- A number below `2 ^ w` has no bits from `w` on.
pub bit_and-lt : (w a b : ℕ) → a < 2 ^ w → bit_and a b < 2 ^ w
bit_and-lt zero zero b h = omega (arith, zero-bit_and b)
bit_and-lt zero (suc a) b h = absurd (omega arith)
bit_and-lt (suc w) a b h = omega (
  arith,
  bit_and_step a b,
  pow-suc 2 w,
  bit_and-lt w (a / 2) (b / 2) (omega (arith, pow-suc 2 w)),
)

pub bit_or-lt : (w a b : ℕ) → a < 2 ^ w → b < 2 ^ w → bit_or a b < 2 ^ w
bit_or-lt zero zero zero h k = omega arith
bit_or-lt zero _ _ h k = absurd (omega arith)
bit_or-lt (suc w) a b h k = omega (
  arith,
  bit_or_step a b,
  pow-suc 2 w,
  bit_or-lt w (a / 2) (b / 2) (omega (arith, pow-suc 2 w)) (omega (arith, pow-suc 2 w)),
)

differ-lt : (x y : ℕ) → x < 2 → y < 2 → differ x y < 2
differ-lt zero y h k = k
differ-lt (suc x) zero h k = h
differ-lt (suc x) (suc y) h k = differ-lt x y (omega arith) (omega arith)

pub bit_xor-lt : (w a b : ℕ) → a < 2 ^ w → b < 2 ^ w → bit_xor a b < 2 ^ w
bit_xor-lt zero zero zero h k = omega arith
bit_xor-lt zero _ _ h k = absurd (omega arith)
bit_xor-lt (suc w) a b h k = omega (
  arith,
  bit_xor_step a b,
  pow-suc 2 w,
  differ-lt (a % 2) (b % 2) (omega arith) (omega arith),
  bit_xor-lt w (a / 2) (b / 2) (omega (arith, pow-suc 2 w)) (omega (arith, pow-suc 2 w)),
)

bit_and-zero : (a : ℕ) → bit_and a 0 ≡ 0
bit_and-zero a = omega (arith, below a a (omega arith))
  where
    below : (n k : ℕ) → k ≤ n → bit_and k 0 ≡ 0
    below zero k h = let e : k ≡ 0 = omega arith in rw e
    below (suc n) k h = omega (arith, bit_and_step k 0, below n (k / 2) (omega arith))

-- A mask of one bit isolates it.
pub bit_and-two_pow : (a i : ℕ) → bit_and a (2 ^ i) ≡ bit a i * 2 ^ i
bit_and-two_pow a zero = omega (arith, bit_and_step a 1, bit_and-zero (a / 2))
bit_and-two_pow a (suc i) =
    let e : 2 ^ suc i / 2 ≡ 2 ^ i = omega (arith, pow-suc 2 i) in
    let step : bit_and a (2 ^ suc i) ≡ bit_and (a / 2) (2 ^ i) * 2 =
      rw (← e) (omega (arith, bit_and_step a (2 ^ suc i), pow-suc 2 i)) in
    omega (
      arith,
      step,
      bit_and-two_pow (a / 2) i,
      pow-suc 2 i,
      ap (λ (t : ℕ). bit (a / 2) i * t) (pow-suc 2 i),
    )

pub bit-zero : (j : ℕ) → bit 0 j ≡ 0
bit-zero zero = refl
bit-zero (suc j) = bit-zero j

-- The one bit of a power of two.
pub bit-two_pow : (i j : ℕ) → bit (2 ^ i) j ≡ (if i == j then 1 else 0)
bit-two_pow zero zero = refl
bit-two_pow zero (suc j) = ground (arith, bit-zero j)
bit-two_pow (suc i) zero = ground (arith, pow-suc 2 i)
bit-two_pow (suc i) (suc j) =
    let e : 2 ^ suc i / 2 ≡ 2 ^ i = omega (arith, pow-suc 2 i) in
    rw e (ground (arith, bit-two_pow i j))

mod-double : (m a : ℕ) → 0 < m → a % (2 * m) ≡ a / 2 % m * 2 + a % 2
mod-double m a h = grind arith

-- A cast to `w` bits keeps those bits.
pub bit-mod : (w a j : ℕ) → j < w → bit (a % 2 ^ w) j ≡ bit a j
bit-mod zero a j h = absurd (omega arith)
bit-mod (suc w) a zero h =
    rw (pow-succ' 2 w) (omega (arith, mod-double (2 ^ w) a (one-le-pow w 2 (omega arith))))
bit-mod (suc w) a (suc j) h =
    let e : a % 2 ^ suc w / 2 ≡ a / 2 % 2 ^ w =
      rw (pow-succ' 2 w) (omega (arith, mod-double (2 ^ w) a (one-le-pow w 2 (omega arith)))) in
    rw e (bit-mod w (a / 2) j (omega arith))

-- Below `2 ^ w`, subtraction from the mask of `w` ones is the complement.
pub bit-complement : (w a j : ℕ) → j < w → a < 2 ^ w → bit (2 ^ w - 1 - a) j ≡ 1 - bit a j
bit-complement zero a j h k = absurd (omega arith)
bit-complement (suc w) a zero h k = omega (arith, pow-suc 2 w)
bit-complement (suc w) a (suc j) h k =
    let e : (2 ^ suc w - 1 - a) / 2 ≡ 2 ^ w - 1 - a / 2 = omega (arith, pow-suc 2 w) in
    rw e (bit-complement w (a / 2) j (omega arith) (omega (arith, pow-suc 2 w)))

pub bit_and-lt_right : (w a b : ℕ) → b < 2 ^ w → bit_and a b < 2 ^ w
bit_and-lt_right zero a zero h = omega (arith, bit_and-zero a)
bit_and-lt_right zero a (suc b) h = absurd (omega arith)
bit_and-lt_right (suc w) a b h = omega (
  arith,
  bit_and_step a b,
  pow-suc 2 w,
  bit_and-lt_right w (a / 2) (b / 2) (omega (arith, pow-suc 2 w)),
)

pub bit-bit_xor : (a b j : ℕ) → bit (bit_xor a b) j ≡ differ (bit a j) (bit b j)
bit-bit_xor a b zero =
    omega (arith, bit_xor_step a b, differ-lt (a % 2) (b % 2) (omega arith) (omega arith))
bit-bit_xor a b (suc j) =
    let e : bit_xor a b / 2 ≡ bit_xor (a / 2) (b / 2) =
      omega (arith, bit_xor_step a b, differ-lt (a % 2) (b % 2) (omega arith) (omega arith)) in
    rw e (bit-bit_xor (a / 2) (b / 2) j)

-- A mask of `w` ones is the remainder by `2 ^ w`.
pub bit_and_mask : (w a : ℕ) → bit_and a (2 ^ w - 1) ≡ a % 2 ^ w
bit_and_mask zero a = omega (arith, bit_and-zero a)
bit_and_mask (suc w) a =
    let e : (2 ^ suc w - 1) / 2 ≡ 2 ^ w - 1 = omega (arith, pow-suc 2 w) in
    let positive : 0 < 2 ^ w = one-le-pow w 2 (omega arith) in
    let step : bit_and a (2 ^ suc w - 1) ≡ bit_and (a / 2) (2 ^ w - 1) * 2 + a % 2 =
      rw (← e) (omega (arith, bit_and_step a (2 ^ suc w - 1), pow-suc 2 w)) in
    let double : a % 2 ^ suc w ≡ a / 2 % 2 ^ w * 2 + a % 2 =
      rw (pow-succ' 2 w) (mod-double (2 ^ w) a positive) in
    omega (arith, step, double, bit_and_mask w (a / 2))

-- The lowest digit of a disjunction.
pub bit_or_digit : (a b : ℕ) → bit_or a b ≡ 2 * bit_or (a / 2) (b / 2) + max (a % 2) (b % 2)
bit_or_digit a b = omega (arith, bit_or_step a b)

pub two_pow-lt : (i w : ℕ) → i < w → 2 ^ i < 2 ^ w
two_pow-lt i zero h = absurd (omega arith)
two_pow-lt zero (suc w) h = omega (arith, pow-suc 2 w, one-le-pow w 2 (omega arith))
two_pow-lt (suc i) (suc w) h = omega (arith, pow-suc 2 w, pow-suc 2 i, two_pow-lt i w (omega arith))

-- The lowest digit of a conjunction.
pub bit_and_digit : (a b : ℕ) → bit_and a b ≡ 2 * bit_and (a / 2) (b / 2) + min (a % 2) (b % 2)
bit_and_digit a b = omega (arith, bit_and_step a b)
