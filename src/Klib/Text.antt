-- ===== src/Klib/Text.antt =====
-- libs/klib/src/string.c: the functions on strings, on fuel where a string need not end. A `char` is
-- a byte, unsigned as on RISC-V, and a negative result is its 32-bit pattern.
pub mod Laws
use wukong_am.Base.{ℕ, zero, suc, ◌+◌, ◌-◌, ◌^◌, Bool, not, ◌&&◌, ◌==◌, ltb, if◌then◌else◌}
use wukong_am.Base.{Option, none, some, u32, u64}
use wukong_am.Base.Bytes.{Array, write}

-- The address of the first zero byte from `s` on.
pub end_of : ℕ → Array → ℕ → Option ℕ
end_of zero m s = none
end_of (suc fuel) m s = let rest = end_of fuel m (s + 1) in if m s == 0 then some s else rest

-- `for (; *s; s ++) sz ++;`
pub count : ℕ → Array → ℕ → ℕ → Option ℕ
count zero m s sz = none
count (suc fuel) m s sz =
    let rest = count fuel m (s + 1) (sz + 1) in if m s == 0 then some sz else rest

pub strlen : ℕ → Array → ℕ → Option ℕ
strlen fuel m s = count fuel m s 0

-- `while ((*dst++ = *src++) != '\0');`
pub strcpy : ℕ → Array → ℕ → ℕ → Option Array
strcpy zero m dst src = none
strcpy (suc fuel) m dst src =
    let copied = write m dst (m src) in
    let rest = strcpy fuel copied (dst + 1) (src + 1) in if m src == 0 then some copied else rest

-- It does not stop at the end of the string.
pub strncpy : Array → ℕ → ℕ → ℕ → Array
strncpy m dst src zero = m
strncpy m dst src (suc n) = strncpy (write m dst (m src)) (dst + 1) (src + 1) n

pub strcat : ℕ → Array → ℕ → ℕ → Option Array
strcat fuel m dst src = elim (end_of fuel m dst) [ none ↦ none | some end ↦ strcpy fuel m end src ]

-- The difference of two bytes, as an `int`.
pub difference : ℕ → ℕ → ℕ
difference a b = u32 (a + 2 ^ 32 - b)

pub strcmp : ℕ → Array → ℕ → ℕ → Option ℕ
strcmp zero m s1 s2 = none
strcmp (suc fuel) m s1 s2 =
    let rest = strcmp fuel m (s1 + 1) (s2 + 1) in
    if not (m s1 == 0) && (m s1 == m s2) then rest else some (difference (m s1) (m s2))

-- `n` is decremented before the test, so it wraps from 0.
pub strncmp : ℕ → Array → ℕ → ℕ → ℕ → Option ℕ
strncmp zero m s1 s2 n = none
strncmp (suc fuel) m s1 s2 n =
    let less = u64 (n + 2 ^ 64 - 1) in
    let rest = strncmp fuel m (s1 + 1) (s2 + 1) less in
    if ltb 0 less && not (m s1 == 0) && (m s1 == m s2)
    then rest
    else some (difference (m s1) (m s2))

pub memcmp : ℕ → Array → ℕ → ℕ → ℕ → Option ℕ
memcmp zero m s1 s2 n = none
memcmp (suc fuel) m s1 s2 n =
    let less = u64 (n + 2 ^ 64 - 1) in
    let rest = memcmp fuel m (s1 + 1) (s2 + 1) less in
    if ltb 0 less && (m s1 == m s2) then rest else some (difference (m s1) (m s2))
