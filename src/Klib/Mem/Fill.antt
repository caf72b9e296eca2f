-- ===== src/Klib/Mem/Fill.antt =====
-- `memset` against filling a range byte by byte.
use wukong_am.Base.{ℕ, zero, suc, ◌+◌, ◌-◌, ◌%◌, ◌/◌, ◌≤◌, ◌<◌, ◌&&◌, ◌==◌, ◌≡◌, refl, ◌∙◌, ap}
use wukong_am.Base.{Bool, true, leb, ltb, if◌then◌else◌, bit_and, Bool-cases, inl, inr, arith}
use wukong_am.Base.Bits.{bit_and_mask}
use wukong_am.Base.Bytes.{Array, write, all_below, all_below_sound}
use wukong_am.Klib.Mem.{
  Cursor, set_bytes, store, set_word, set_blocks, set_words, splat, set_long, memset,
}

-- The range of `n` bytes from `a` on is `c`, the rest is `m`.
abbrev pub fill : Array → ℕ → ℕ → ℕ → Array
fill m a n c i = if leb a i && ltb i (a + n) then c else m i

-- What a loop leaves behind that set `n` bytes from the cursor on, and counted `used` of them.
record IsFilled (s : Cursor) (n used c : ℕ) (t : Cursor) : Type 0 where
  mem : (i : ℕ) → t.mem i ≡ fill s.mem s.dst n c i
  dst : t.dst ≡ s.dst + n
  left : t.left + used ≡ s.left

set_bytes-IsFilled : (n c : ℕ) (s : Cursor) → IsFilled s n 0 c (set_bytes n c s)
unfolding set_bytes
set_bytes-IsFilled zero c s = record {
  mem = λ i. ground arith;
  dst = omega arith;
  left = omega arith;
}
set_bytes-IsFilled (suc n) c s =
    let next = record s { mem = write s.mem s.dst c; dst = s.dst + 1 } in
    let rest = set_bytes-IsFilled n c next in
    record { mem = λ i. rest.mem i ∙ ground arith; dst = omega (arith, rest.dst); left = rest.left }

-- Two loops, one after the other.
then-IsFilled :
    {s t u : Cursor} (n k used more c : ℕ)
    → IsFilled s n used c t
    → IsFilled t k more c u
    → IsFilled s (n + k) (used + more) c u
then-IsFilled n k used more c h g = record {
  mem = λ i. g.mem i ∙ ground (arith, h.mem i, h.dst);
  dst = omega (arith, g.dst, h.dst);
  left = omega (arith, g.left, h.left);
}

-- The lowest `width` bytes of `value` are `c`.
repeats : ℕ → ℕ → ℕ → Bool
repeats zero value c = true
repeats (suc width) value c = (value % 256 == c) && repeats width (value / 256) c

splat_table : all_below 256 (λ c. repeats 8 (splat c) c) ≡ true
unfolding all_below repeats splat
splat_table = refl

splat-repeats : (c : ℕ) → c < 256 → repeats 8 (splat c) c ≡ true
splat-repeats c h = all_below_sound 256 _ c splat_table h

store_lem :
    (width a value c : ℕ) (m : Array) (i : ℕ)
    → repeats width value c ≡ true
    → store width a value m i ≡ fill m a width c i
unfolding store repeats
store_lem zero a value c m i h = ground arith
store_lem (suc width) a value c m i h =
    store_lem width (a + 1) (value / 256) c (write m a (value % 256)) i (ground arith)
    ∙ ground arith

set_word-IsFilled : (c : ℕ) (s : Cursor) → c < 256 → IsFilled s 8 0 c (set_word (splat c) s)
unfolding set_word
set_word-IsFilled c s h = record {
  mem = λ i. store_lem 8 s.dst (splat c) c s.mem i (splat-repeats c h);
  dst = refl;
  left = omega arith;
}

-- A loop that does not start.
unchanged : (c : ℕ) (s : Cursor) → IsFilled s 0 0 c s
unchanged c s = record { mem = λ i. ground arith; dst = omega arith; left = omega arith }

-- Fewer bytes are left.
counted :
    {s t : Cursor} (n c used : ℕ)
    → used ≤ s.left
    → IsFilled s n 0 c t
    → IsFilled s n used c (record t { left = s.left - used })
counted n c used h g = record { mem = g.mem; dst = g.dst; left = omega arith }

-- The loops over words count what they set, wherever they end.
set_words-IsFilled :
    (fuel c : ℕ) (s : Cursor) → c < 256 → (k : ℕ) × IsFilled s k k c (set_words fuel (splat c) s)
unfolding set_words
set_words-IsFilled zero c s h = (0, unchanged c s)
set_words-IsFilled (suc fuel) c s h = elim (Bool-cases (leb 8 s.left)) [
  | inl more ↦
      let one = counted 8 c 8 (ground arith) (set_word-IsFilled c s h) in
      let (k, rest) =
        set_words-IsFilled fuel c (record (set_word (splat c) s) { left = s.left - 8 }) h in
      (8 + k, rw more (then-IsFilled 8 k 8 k c one rest))
  | inr done ↦ (0, rw done (unchanged c s))
]

four_words-IsFilled :
    (c : ℕ) (s : Cursor)
    → c < 256
    → IsFilled s 32 0 c
        (set_word (splat c) (set_word (splat c) (set_word (splat c) (set_word (splat c) s))))
four_words-IsFilled c s h =
    let w = splat c in
    let one = set_word-IsFilled c s h in
    let two = then-IsFilled 8 8 0 0 c one (set_word-IsFilled c (set_word w s) h) in
    let three = then-IsFilled 16 8 0 0 c two (set_word-IsFilled c (set_word w (set_word w s)) h) in
    then-IsFilled 24 8 0 0 c three (set_word-IsFilled c (set_word w (set_word w (set_word w s))) h)

set_blocks-IsFilled :
    (fuel c : ℕ) (s : Cursor) → c < 256 → (k : ℕ) × IsFilled s k k c (set_blocks fuel (splat c) s)
unfolding set_blocks
set_blocks-IsFilled zero c s h = (0, unchanged c s)
set_blocks-IsFilled (suc fuel) c s h = elim (Bool-cases (leb 32 s.left)) [
  | inl more ↦
      let w = splat c in
      let next = set_word w (set_word w (set_word w (set_word w s))) in
      let one = counted 32 c 32 (ground arith) (four_words-IsFilled c s h) in
      let (k, rest) = set_blocks-IsFilled fuel c (record next { left = s.left - 32 }) h in
      (32 + k, rw more (then-IsFilled 32 k 32 k c one rest))
  | inr done ↦ (0, rw done (unchanged c s))
]

set_long-IsFilled :
    (c : ℕ) (s : Cursor) → c < 256 → 32 ≤ s.left → (k : ℕ) × IsFilled s k k c (set_long c s)
unfolding set_long
set_long-IsFilled c s h long =
    let pad = s.dst % 8 in
    let start = record s { left = s.left - pad } in
    let padded = set_bytes pad c start in
    let first = set_bytes-IsFilled pad c start in
    let blocks = set_blocks padded.left (splat c) padded in
    let (k, second) = set_blocks-IsFilled padded.left c padded h in
    let (l, third) = set_words-IsFilled blocks.left c blocks h in
    let all =
      then-IsFilled (pad + k) l (0 + k) l c (then-IsFilled pad k 0 k c first second) third in
    (pad + k + l, record { mem = all.mem; dst = all.dst; left = omega (arith, all.left) })

set_start :
    (c : ℕ) (s : Cursor)
    → c < 256
    → (k : ℕ) × IsFilled s k k c (if leb 32 s.left then set_long c s else s)
set_start c s h = elim (Bool-cases (leb 32 s.left)) [
  | inl long ↦ rw long (set_long-IsFilled c s h (ground arith))
  | inr short ↦ rw short (0, unchanged c s)
]

set_rest :
    (k c : ℕ) (s t : Cursor) (i : ℕ)
    → IsFilled s k k c t
    → (set_bytes t.left c t).mem i ≡ fill s.mem s.dst s.left c i
set_rest k c s t i h =
    (set_bytes-IsFilled t.left c t).mem i ∙ ground (arith, h.mem i, h.dst, h.left)

-- `memset` sets each of the `n` bytes from `v` on to the lowest byte of its argument and keeps all
-- others, at every alignment and length, though it sets most of them by words.
pub memset_lem :
    (m : Array) (v c n i : ℕ)
    → memset m v c n i ≡ (if leb v i && ltb i (v + n) then c % 256 else m i)
unfolding memset
memset_lem m v c n i =
    let b = bit_and c 0xff in
    let low : b ≡ c % 256 = bit_and_mask 8 c in
    let s : Cursor = record { mem = m; dst = v; src = 0; left = n } in
    let (k, filled) = set_start b s (omega arith) in
    set_rest k b s _ i filled ∙ ap (λ c'. fill m v n c' i) low
