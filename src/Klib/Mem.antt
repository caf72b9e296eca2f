-- ===== src/Klib/Mem.antt =====
-- libs/klib/src/string.c: `memset`, `memcpy` and `memmove`, with their loops over words. The memory
-- is an array of bytes, a pointer is an index of it.
pub mod Copy
pub mod Fill
pub mod Loops
pub mod Moved
use wukong_am.Base.{Bool, ℕ, zero, suc, ◌+◌, ◌-◌, ◌%◌, ◌/◌, ◌^◌, ◌&&◌, ◌==◌, leb, ltb}
use wukong_am.Base.{if◌then◌else◌, bit_and, bit_or, u32, u64, ◌<<<◌}
use wukong_am.Base.Bytes.{Array, write, copy}

-- The local variables of a loop: the memory, the next target and source, the bytes left.
pub record Cursor : Type 0 where
  pub mem : Array
  pub dst : ℕ
  pub src : ℕ
  pub left : ℕ

-- `while (count --) { *dst ++ = c; }`
pub set_bytes : ℕ → ℕ → Cursor → Cursor
set_bytes zero c s = s
set_bytes (suc count) c s =
    set_bytes count c (record s { mem = write s.mem s.dst c; dst = s.dst + 1 })

-- A store of the lowest `width` bytes of `value`, the lowest first.
pub store : ℕ → ℕ → ℕ → Array → Array
store zero a value m = m
store (suc width) a value m = store width (a + 1) (value / 256) (write m a (value % 256))

-- `*dst8 ++ = c8`
pub set_word : ℕ → Cursor → Cursor
set_word c8 s = record s { mem = store 8 s.dst c8 s.mem; dst = s.dst + 8 }

-- `while (n >= threshold)`, with four stores, on fuel.
pub set_blocks : ℕ → ℕ → Cursor → Cursor
set_blocks zero c8 s = s
set_blocks (suc fuel) c8 s =
    let next = set_word c8 (set_word c8 (set_word c8 (set_word c8 s))) in
    let rest = set_blocks fuel c8 (record next { left = s.left - 32 }) in
    if leb 32 s.left then rest else s

-- `while (n >= 8)`, on fuel.
pub set_words : ℕ → ℕ → Cursor → Cursor
set_words zero c8 s = s
set_words (suc fuel) c8 s =
    let rest = set_words fuel c8 (record (set_word c8 s) { left = s.left - 8 }) in
    if leb 8 s.left then rest else s

-- The byte eight times, as the 64-bit number `c8`.
pub splat : ℕ → ℕ
splat c =
    let c2 = u32 (bit_or (u32 (c <<< 8)) c) in
    let c4 = u32 (bit_or (u32 (c2 <<< 16)) c2) in u64 (bit_or (u64 (u64 (c4 <<< 16) <<< 16)) c4)

-- The part of `memset` for at least 32 bytes.
pub set_long : ℕ → Cursor → Cursor
set_long c s =
    let pad = s.dst % 8 in
    let padded = set_bytes pad c (record s { left = s.left - pad }) in
    let blocks = set_blocks padded.left (splat c) padded in set_words blocks.left (splat c) blocks

pub memset : Array → ℕ → ℕ → ℕ → Array
memset m v c0 n =
    let c = bit_and c0 0xff in
    let start : Cursor = record { mem = m; dst = v; src = 0; left = n } in
    let s = if leb 32 n then set_long c start else start in (set_bytes s.left c s).mem

-- `while (count --) { *dst ++ = *src ++; }`
pub copy_bytes : ℕ → Cursor → Cursor
copy_bytes zero s = s
copy_bytes (suc count) s =
    copy_bytes count
      (record s { mem = write s.mem s.dst (s.mem s.src); dst = s.dst + 1; src = s.src + 1 })

-- `*dst8 ++ = *src8 ++`, or its like for words of `width` bytes: all of them are read first.
pub copy_word : ℕ → Cursor → Cursor
copy_word width s = record s {
  mem = copy s.mem s.dst (λ i. s.mem (s.src + i)) width;
  dst = s.dst + width;
  src = s.src + width;
}

-- The unrolled body: `count` words.
pub unrolled : ℕ → ℕ → Cursor → Cursor
unrolled zero width s = s
unrolled (suc count) width s = unrolled count width (copy_word width s)

-- `while (n >= count * width)`, on fuel: `count` is the number of copies in the body.
pub copy_words : ℕ → ℕ → ℕ → ℕ → Cursor → Cursor
copy_words zero count width total s = s
copy_words (suc fuel) count width total s =
    let next = unrolled count width s in
    let rest = copy_words fuel count width total (record next { left = s.left - total }) in
    if leb total s.left then rest else s

-- The part of `memcpy` for words of `width` bytes, `count` of which are 32 bytes.
pub copy_long : ℕ → ℕ → Cursor → Cursor
copy_long width count s =
    let pad = s.dst % width in
    let padded = copy_bytes pad (record s { left = s.left - pad }) in
    let blocks = copy_words padded.left count width 32 padded in
    copy_words blocks.left 1 width width blocks

-- Whether that part is taken; the distance of the pointers is a 64-bit number.
pub is_align : ℕ → Cursor → Bool
is_align width s = leb 32 s.left && (u64 (s.dst + 2 ^ 64 - s.src) % width == 0)

pub memcpy : Array → ℕ → ℕ → ℕ → Array
memcpy m out src n =
    let start : Cursor = record { mem = m; dst = out; src = src; left = n } in
    let eights = if is_align 8 start then copy_long 8 4 start else start in
    let fours = if is_align 4 eights then copy_long 4 8 eights else eights in
    (copy_bytes fours.left fours).mem

-- `while (n-- > 0) *--d = *--s;`, with the ends `d` and `s` of the blocks.
pub copy_down : ℕ → ℕ → ℕ → Array → Array
copy_down zero d s m = m
copy_down (suc n) d s m = copy_down n (d - 1) (s - 1) (write m (d - 1) (m (s - 1)))

pub memmove : Array → ℕ → ℕ → ℕ → Array
memmove m dst src n =
    if ltb dst (src + n) && ltb src dst
    then copy_down n (dst + n) (src + n) m
    else memcpy m dst src n
