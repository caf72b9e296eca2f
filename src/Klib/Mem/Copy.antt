-- ===== src/Klib/Mem/Copy.antt =====
-- `memcpy` and `memmove` against moving a block at once.
use wukong_am.Base.{ℕ, zero, suc, ◌+◌, ◌-◌, ◌*◌, ◌%◌, ◌≤◌, ◌<◌, ◌&&◌, ◌≡◌, refl, ◌∙◌, ap}
use wukong_am.Base.{false, leb, ltb, if◌then◌else◌, Bool-cases, if-intro, inl, inr, arith}
use native.Mathlib.Nat.{mod-lt}
use wukong_am.Base.Bytes.{Array, write}
use wukong_am.Klib.Mem.Moved.{
  IsCopied, IsUpwards, Progress, after-IsUpwards, counted, moved, no-Progress, recount,
  rest-IsUpwards, shorter, then-IsCopied, then-Progress, unchanged,
}
use wukong_am.Klib.Mem.{
  Cursor, copy_bytes, copy_word, unrolled, copy_words, copy_long, is_align, memcpy, copy_down,
  memmove,
}

copy_bytes-IsCopied :
    (n : ℕ) (s : Cursor) → IsUpwards s.dst s.src n → IsCopied s n 0 (copy_bytes n s)
unfolding copy_bytes
copy_bytes-IsCopied zero s up = unchanged s
copy_bytes-IsCopied (suc n) s up =
    let next = record s {
      mem = write s.mem s.dst (s.mem s.src);
      dst = s.dst + 1;
      src = s.src + 1;
    } in
    let one : IsCopied s 1 0 next = record {
      mem = λ i. ground (arith);
      dst = refl;
      src = refl;
      left = omega arith;
    } in
    let rest =
      copy_bytes-IsCopied n next
        (shorter _ _ _ _ (rest-IsUpwards s.dst s.src (suc n) 1 up (omega arith)) (omega arith)) in
    recount (omega arith) refl (then-IsCopied 1 n 0 0 (shorter _ _ _ _ up (omega arith)) one rest)

copy_word-IsCopied : (width : ℕ) (s : Cursor) → IsCopied s width 0 (copy_word width s)
unfolding copy_word
copy_word-IsCopied width s = record { mem = λ i. refl; dst = refl; src = refl; left = omega arith }

-- The unrolled body copies `count` words.
unrolled-IsCopied :
    (count width n : ℕ) (s : Cursor)
    → n ≡ count * width
    → IsUpwards s.dst s.src n
    → IsCopied s n 0 (unrolled count width s)
unfolding unrolled
unrolled-IsCopied zero width n s e up = recount (omega arith) refl (unchanged s)
unrolled-IsCopied (suc count) width n s e up =
    let first : width + count * width ≡ n = omega arith in
    let next = copy_word width s in
    let behind : IsUpwards next.dst next.src (n - width) =
      unfold copy_word in rest-IsUpwards s.dst s.src n width up (omega arith) in
    let rest = unrolled-IsCopied count width (n - width) next (omega arith) behind in
    recount (omega arith) refl (
      then-IsCopied width (n - width) 0 0 (shorter _ _ _ _ up (omega arith))
        (copy_word-IsCopied width s) rest)

-- The loops over words, wherever they end.
copy_words-Progress :
    (fuel count width total : ℕ) (s : Cursor)
    → total ≡ count * width
    → IsUpwards s.dst s.src s.left
    → Progress s (copy_words fuel count width total s)
unfolding copy_words
copy_words-Progress zero count width total s e up = no-Progress s
copy_words-Progress (suc fuel) count width total s e up = elim (Bool-cases (leb total s.left)) [
  | inl more ↦
      let enough : total ≤ s.left = ground arith in
      let next = record (unrolled count width s) { left = s.left - total } in
      let body = unrolled-IsCopied count width total s e (shorter _ _ _ _ up enough) in
      let step : Progress s next = record {
        done = total;
        fits = enough;
        copied = counted total total enough body;
      } in
      rw more (
        then-Progress up step
          (copy_words-Progress fuel count width total next e (after-IsUpwards step up)))
  | inr done ↦ rw done (no-Progress s)
]

copy_long-Progress :
    (width count : ℕ) (s : Cursor)
    → 32 ≡ count * width
    → s.dst % width ≤ s.left
    → IsUpwards s.dst s.src s.left
    → Progress s (copy_long width count s)
unfolding copy_long
copy_long-Progress width count s e fit up =
    let pad = s.dst % width in
    let start = record s { left = s.left - pad } in
    let padded = copy_bytes pad start in
    let bytes = copy_bytes-IsCopied pad start (shorter _ _ _ _ up fit) in
    let first : Progress s padded = record {
      done = pad;
      fits = fit;
      copied = record {
        mem = bytes.mem;
        dst = bytes.dst;
        src = bytes.src;
        left = omega (arith, bytes.left);
      };
    } in
    let up1 = after-IsUpwards first up in
    let blocks = copy_words padded.left count width 32 padded in
    let second = copy_words-Progress padded.left count width 32 padded e up1 in
    let third =
      copy_words-Progress blocks.left 1 width width blocks (omega arith)
        (after-IsUpwards second up1) in
    then-Progress up first (then-Progress up1 second third)

-- A part of `memcpy` for words of 8 or 4 bytes, taken or not.
copy_aligned :
    (width count : ℕ) (s : Cursor)
    → 32 ≡ count * width
    → width ≤ 8
    → 0 < width
    → IsUpwards s.dst s.src s.left
    → Progress s (if is_align width s then copy_long width count s else s)
unfolding is_align
copy_aligned width count s e small pos up = elim (Bool-cases (leb 32 s.left)) [
  | inl long ↦
      let long_enough : 32 ≤ s.left = ground arith in
      if-intro (Progress s) (is_align width s)
        (copy_long-Progress width count s e (omega (arith, long_enough, mod-lt s.dst pos)) up)
        (no-Progress s)
  | inr short ↦ rw short (no-Progress s)
]

-- The last loop of `memcpy`, behind the others.
rest_of_bytes :
    {s t : Cursor}
    → IsUpwards s.dst s.src s.left
    → Progress s t
    → (i : ℕ) → (copy_bytes t.left t).mem i ≡ moved s.mem s.dst s.src s.left i
rest_of_bytes {s} {t} up words i =
    let c = words.copied in
    let rest = copy_bytes-IsCopied t.left t (after-IsUpwards words up) in
    let total : words.done + t.left ≡ s.left = omega (arith, c.left) in
    let whole = then-IsCopied words.done t.left words.done 0 (rw total up) c rest in
    whole.mem i ∙ ap (λ n. moved s.mem s.dst s.src n i) total

-- `memcpy` moves the `n` bytes from `src` on to `out` and keeps all others, at every alignment and
-- length, where the target is below the source or the blocks do not overlap.
pub memcpy_lem :
    (m : Array) (out src n i : ℕ)
    → IsUpwards out src n
    → memcpy m out src n i ≡ (if leb out i && ltb i (out + n) then m (src + (i - out)) else m i)
unfolding memcpy
memcpy_lem m out src n i up =
    let s : Cursor = record { mem = m; dst = out; src = src; left = n } in
    let first = copy_aligned 8 4 s refl (omega arith) (omega arith) up in
    let up1 = after-IsUpwards first up in
    let second = copy_aligned 4 8 _ refl (omega arith) (omega arith) up1 in
    rest_of_bytes up (then-Progress up first second) i

-- The loop that copies downwards moves a block whose target is not below the source.
copy_down_lem :
    (n dst src i : ℕ) (m : Array)
    → src ≤ dst
    → copy_down n (dst + n) (src + n) m i ≡ moved m dst src n i
unfolding copy_down
copy_down_lem zero dst src i m h = ground arith
copy_down_lem (suc n) dst src i m h =
    let d : dst + suc n - 1 ≡ dst + n = omega arith in
    let s : src + suc n - 1 ≡ src + n = omega arith in
    let m1 = write m (dst + n) (m (src + n)) in
    let rest = copy_down_lem n dst src i m1 h in
    let top : i ≡ dst + n → m (src + n) ≡ m (src + (i - dst)) = λ e. ap m (omega arith) in
    rw (d, s) (rest ∙ ground (arith, top))

-- What its test for overlap leaves to `memcpy`.
upwards : (dst src n : ℕ) → (ltb dst (src + n) && ltb src dst) ≡ false → IsUpwards dst src n
upwards dst src n h = elim (Bool-cases (ltb src dst)) [
  | inl above ↦ inr (ground arith)
  | inr below ↦ inl (ground arith)
]

-- `memmove` moves the `n` bytes from `src` on to `dst` and keeps all others, wherever the two blocks
-- lie, overlapping or not.
pub memmove_lem :
    (m : Array) (dst src n i : ℕ)
    → memmove m dst src n i ≡ (if leb dst i && ltb i (dst + n) then m (src + (i - dst)) else m i)
unfolding memmove
memmove_lem m dst src n i = elim (Bool-cases (ltb dst (src + n) && ltb src dst)) [
  | inl down ↦ rw down (copy_down_lem n dst src i m (ground arith))
  | inr up ↦ rw up (memcpy_lem m dst src n i (upwards dst src n up))
]
