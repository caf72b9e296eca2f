-- ===== src/Base/Words.antt =====
-- Casts of C to the fixed widths, shifts, and the truth value of an integer. A negative value is
-- its two's complement pattern.
use Prim.Native.Nat.{ℕ, ◌+◌, ◌*◌, ◌/◌, ◌%◌, ◌^◌, compare, Ordering}
use mathlib.Core.Bool.{Bool, true, false}

abbrev pub u8 : ℕ → ℕ
u8 n = n % 2 ^ 8

abbrev pub u16 : ℕ → ℕ
u16 n = n % 2 ^ 16

abbrev pub u32 : ℕ → ℕ
u32 n = n % 2 ^ 32

abbrev pub u64 : ℕ → ℕ
u64 n = n % 2 ^ 64

infixl 72 ◌<<<◌ ◌>>>◌
abbrev pub ◌<<<◌ : ℕ → ℕ → ℕ
x <<< k = x * 2 ^ k

abbrev pub ◌>>>◌ : ℕ → ℕ → ℕ
x >>> k = x / 2 ^ k

-- An integer as a condition: everything but 0 is true.
abbrev pub truthy : ℕ → Bool
truthy n = elim (compare n 0) [ Ordering.eq ↦ false | _ ↦ true ]

-- `b ? 1 : 0`.
abbrev pub of_bool : Bool → ℕ
of_bool true = 1
of_bool false = 0

-- `a < b` of two `int`, from their 32-bit patterns.
abbrev pub int_lt : ℕ → ℕ → Bool
int_lt a b = elim (compare (u32 (a + 2 ^ 31)) (u32 (b + 2 ^ 31))) [ Ordering.lt ↦ true | _ ↦ false ]
