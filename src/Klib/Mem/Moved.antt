-- ===== src/Klib/Mem/Moved.antt =====
-- Moving a block at once, in parts, and by the loops of `memcpy`.
use wukong_am.Base.{ℕ, ◌+◌, ◌-◌, ◌≤◌, ◌<◌, ◌&&◌, ◌≡◌, ◌∙◌, ap, ◌⊎◌}
use wukong_am.Base.{false, leb, ltb, if◌then◌else◌, inl, inr, arith}
use wukong_am.Base.Bytes.{Array}
use wukong_am.Klib.Mem.{Cursor}

-- The `n` bytes from `src` on, moved at once to `dst`.
abbrev pub moved : Array → ℕ → ℕ → ℕ → Array
moved m dst src n i = if leb dst i && ltb i (dst + n) then m (src + (i - dst)) else m i

-- A block can be copied upwards: the target is below the source or behind its end.
abbrev pub IsUpwards : ℕ → ℕ → ℕ → Type 0
IsUpwards dst src n = (dst ≤ src) ⊎ (src + n ≤ dst)

-- What a loop leaves behind that copied `n` bytes from the cursor on, and counted `used` of them.
pub record IsCopied (s : Cursor) (n used : ℕ) (t : Cursor) : Type 0 where
  pub mem : (i : ℕ) → t.mem i ≡ moved s.mem s.dst s.src n i
  pub dst : t.dst ≡ s.dst + n
  pub src : t.src ≡ s.src + n
  pub left : t.left + used ≡ s.left

pub unchanged : (s : Cursor) → IsCopied s 0 0 s
unchanged s = record {
  mem = λ i. ground arith;
  dst = omega arith;
  src = omega arith;
  left = omega arith;
}

-- The bytes that are yet to be read have not been written.
pub separate :
    (d s n k i : ℕ)
    → IsUpwards d s (n + k)
    → d + n ≤ i
    → i < d + n + k
    → (let from = s + n + (i - (d + n)) in leb d from && ltb from (d + n)) ≡ false
separate d s n k i (inl below) low high = ground arith
separate d s n k i (inr behind) low high = ground arith

-- Moving a block is moving its parts one after the other, if it can be copied upwards.
pub moved-moved :
    (m m1 : Array) (d s n k i : ℕ)
    → IsUpwards d s (n + k)
    → ((j : ℕ) → m1 j ≡ moved m d s n j)
    → moved m1 (d + n) (s + n) k i ≡ moved m d s (n + k) i
moved-moved m m1 d s n k i up h =
    let from = s + n + (i - (d + n)) in
    let fetched : d + n ≤ i → i < d + n + k → m1 from ≡ m (s + (i - d)) = λ low high.
      let same : from ≡ s + (i - d) = omega arith in
      let outside : (leb d from && ltb from (d + n)) ≡ false = separate d s n k i up low high in
      h from ∙ rw outside (ap m same) in
    ground (arith, fetched, h i)

-- Two loops, one after the other.
pub then-IsCopied :
    {s t u : Cursor} (n k used more : ℕ)
    → IsUpwards s.dst s.src (n + k)
    → IsCopied s n used t
    → IsCopied t k more u
    → IsCopied s (n + k) (used + more) u
then-IsCopied {s} {t} n k used more up h g = record {
  mem = λ i.
      g.mem i
      ∙ ap (λ d. moved t.mem d t.src k i) h.dst
      ∙ ap (λ a. moved t.mem (s.dst + n) a k i) h.src
      ∙ moved-moved s.mem t.mem s.dst s.src n k i up h.mem;
  dst = omega (arith, g.dst, h.dst);
  src = omega (arith, g.src, h.src);
  left = omega (arith, g.left, h.left);
}

-- A shorter block, and the rest of a block, can be copied upwards too.
pub shorter : (d s n k : ℕ) → IsUpwards d s n → k ≤ n → IsUpwards d s k
shorter d s n k (inl below) h = inl below
shorter d s n k (inr behind) h = inr (omega arith)

pub rest-IsUpwards : (d s n k : ℕ) → IsUpwards d s n → k ≤ n → IsUpwards (d + k) (s + k) (n - k)
rest-IsUpwards d s n k (inl below) h = inl (omega arith)
rest-IsUpwards d s n k (inr behind) h = inr (omega arith)

pub recount :
    {s t : Cursor} {n k used more : ℕ}
    → n ≡ k
    → used ≡ more
    → IsCopied s n used t
    → IsCopied s k more t
recount e f h = rw (← e, ← f) h

-- Fewer bytes are left.
pub counted :
    {s t : Cursor} (n used : ℕ)
    → used ≤ s.left
    → IsCopied s n 0 t
    → IsCopied s n used (record t { left = s.left - used })
counted n used h g = record { mem = g.mem; dst = g.dst; src = g.src; left = omega arith }

-- A loop copies some number of bytes and counts them.
pub record Progress (s t : Cursor) : Type 0 where
  pub done : ℕ
  pub fits : done ≤ s.left
  pub copied : IsCopied s done done t

-- The rest of the block can then be copied upwards.
pub after-IsUpwards :
    {s t : Cursor} → Progress s t → IsUpwards s.dst s.src s.left → IsUpwards t.dst t.src t.left
after-IsUpwards {s} {t} h up =
    let c = h.copied in
    let left : s.left - h.done ≡ t.left = omega (arith, c.left) in
    rw (c.dst, c.src, ← left) (rest-IsUpwards s.dst s.src s.left h.done up h.fits)

pub then-Progress :
    {s t u : Cursor} → IsUpwards s.dst s.src s.left → Progress s t → Progress t u → Progress s u
then-Progress {s} {t} {u} up h g =
    let fit : h.done + g.done ≤ s.left = omega (arith, h.fits, g.fits, h.copied.left) in
    record {
      done = h.done + g.done;
      fits = fit;
      copied = then-IsCopied h.done g.done h.done g.done (shorter _ _ _ _ up fit) h.copied g.copied;
    }

pub no-Progress : (s : Cursor) → Progress s s
no-Progress s = record { done = 0; fits = omega arith; copied = unchanged s }
