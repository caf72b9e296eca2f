-- ===== src/Klib/Heap.antt =====
-- libs/klib/src/stdlib.c: random numbers, conversions, and the allocator. `uintptr_t` has 64 bits.
pub mod Laws
pub mod Blocks
use wukong_am.Base.{ℕ, zero, suc, ◌+◌, ◌-◌, ◌*◌, ◌/◌, ◌%◌, ◌^◌, ◌&&◌, ◌==◌, leb, ltb}
use wukong_am.Base.{Option, none, some, if◌then◌else◌, bit_and, u32, u64}
use wukong_am.Base.Bytes.{Array}

-- The variable `next`: the result and the next state.
unfoldable pub rand : ℕ → ℕ × ℕ
rand state = let next = u64 (state * 1103515245 + 12345) in (u32 (next / 65536) % 32768, next)

pub srand : ℕ → ℕ
srand seed = u32 seed

-- Of a 32-bit pattern.
pub abs : ℕ → ℕ
abs x = if leb (2 ^ 31) x then u32 (2 ^ 32 - x) else x

-- The two loops of `atoi`, on fuel; the sum is a 32-bit pattern.
pub skip_spaces : ℕ → Array → ℕ → Option ℕ
skip_spaces zero m nptr = none
skip_spaces (suc fuel) m nptr =
    let rest = skip_spaces fuel m (nptr + 1) in if m nptr == 0x20 then rest else some nptr

pub digits_of : ℕ → Array → ℕ → ℕ → Option ℕ
digits_of zero m nptr x = none
digits_of (suc fuel) m nptr x =
    let rest = digits_of fuel m (nptr + 1) (u32 (x * 10 + m nptr + 2 ^ 32 - 0x30)) in
    if leb 0x30 (m nptr) && leb (m nptr) 0x39 then rest else some x

pub atoi : ℕ → Array → ℕ → Option ℕ
atoi fuel m nptr = elim (skip_spaces fuel m nptr) [
  | none ↦ none
  | some start ↦ digits_of fuel m start 0
]

-- The variable `last`; a null pointer is 0.
pub record Last : Type 0 where
  pub ptr : ℕ
  pub size : ℕ

-- The heap of the platform.
pub record Area : Type 0 where
  pub start : ℕ
  pub end : ℕ

-- `ROUNDUP(size, sizeof(uintptr_t))`
pub round_up : ℕ → ℕ
round_up size = bit_and (u64 (size + 8 - 1)) (2 ^ 64 - 8)

pub malloc : Area → Last → ℕ → Option ℕ × Last
malloc heap last size0 =
    let first = if last.ptr == 0 then heap.start else last.ptr in
    let size = round_up size0 in
    let ptr = u64 (first + last.size) in
    if leb heap.end (u64 (ptr + size))
    then (none, record { ptr = ptr; size = last.size })
    else (some ptr, record { ptr = ptr; size = size })

pub free : Last → ℕ → Last
free last ptr = if ptr == last.ptr then record last { size = 0 } else last
