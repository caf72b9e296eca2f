-- ===== src/Klib/Mem/Loops.antt =====
-- The fuel of the loops over words: as much as there are bytes left is enough.
use wukong_am.Base.{ℕ, zero, suc, ◌-◌, ◌≤◌, ◌<◌, arith}
use wukong_am.Klib.Mem.{Cursor, set_word, set_words, set_blocks, unrolled, copy_words}

-- With as much fuel as there are bytes left, each loop over words ends by its test: the loops of
-- `memset` leave fewer than 32 and fewer than 8 bytes, a loop of `memcpy` that copies `total` bytes
-- a round, at least one, leaves fewer than `total`.
pub loops_end :
    (fuel c8 count width total : ℕ) (s : Cursor)
    → s.left ≤ fuel
    → 0 < total
    → ((set_blocks fuel c8 s).left < 32)
      × ((set_words fuel c8 s).left < 8)
      × ((copy_words fuel count width total s).left < total)
unfolding set_blocks set_words copy_words
loops_end zero c8 count width total s enough pos = (omega arith, omega arith, omega arith)
loops_end (suc fuel) c8 count width total s enough pos =
    let four = set_word c8 (set_word c8 (set_word c8 (set_word c8 s))) in
    let blocks =
      loops_end fuel c8 count width total (record four { left = s.left - 32 }) (omega arith) pos in
    let words =
      loops_end fuel c8 count width total (record (set_word c8 s) { left = s.left - 8 })
        (omega arith) pos in
    let copies =
      loops_end fuel c8 count width total
        (record (unrolled count width s) { left = s.left - total }) (omega arith) pos in
    (ground (arith, blocks.0), ground (arith, words.1), ground (arith, copies.2))
