-- ===== src/Klib/Text/Laws.antt =====
-- What the functions on strings compute, for strings that end.
use wukong_am.Base.{ℕ, zero, suc, ◌+◌, ◌-◌, ◌≤◌, ◌<◌, ◌≡◌, ◌⊎◌, refl, ◌∙◌, ap, ◌&&◌, ◌==◌, arith}
use wukong_am.Base.{some, leb, ltb, if◌then◌else◌, inl, inr, false}
use wukong_am.Base.Bytes.{Array, write}
use wukong_am.Klib.Mem.Moved.{moved, IsUpwards, moved-moved, rest-IsUpwards, shorter}
use wukong_am.Klib.Text.{count, strlen, strcpy}

-- A string of `k` bytes starts at `s`: they are not 0, the next is.
abbrev pub IsText : Array → ℕ → ℕ → Type 0
IsText m s zero = m s ≡ 0
IsText m s (suc k) = (1 ≤ m s) × IsText m (s + 1) k

count_lem :
    (fuel k s sz : ℕ) (m : Array) → IsText m s k → k < fuel → count fuel m s sz ≡ some (sz + k)
unfolding count
count_lem zero k s sz m text enough = absurd (omega arith)
count_lem (suc fuel) zero s sz m text enough = rw text (ap some (omega arith))
count_lem (suc fuel) (suc k) s sz m text enough =
    let more : (m s == 0) ≡ false = ground (arith, text.0) in
    rw more (count_lem fuel k (s + 1) (sz + 1) m text.1 (omega arith) ∙ ap some (omega arith))

-- `strlen` ends at the end of a string of `k` bytes, on more than `k` fuel, and returns `k`.
pub strlen_lem : (fuel k s : ℕ) (m : Array) → IsText m s k → k < fuel → strlen fuel m s ≡ some k
unfolding strlen
strlen_lem fuel k s m text enough = count_lem fuel k s 0 m text enough ∙ ap some (omega arith)

-- A string is still there after a write outside of it.
IsText-write :
    (k s a v : ℕ) (m : Array) → IsText m s k → (a < s) ⊎ (s + k < a) → IsText (write m a v) s k
IsText-write zero s a v m text outside = elim outside [
  | inl below ↦ ground arith
  | inr above ↦ ground arith
]
IsText-write (suc k) s a v m text outside = elim outside [
  | inl below ↦ (ground (arith, text.0), IsText-write k (s + 1) a v m text.1 (inl (omega arith)))
  | inr above ↦ (ground (arith, text.0), IsText-write k (s + 1) a v m text.1 (inr (omega arith)))
]

one_byte : (m : Array) (dst src j : ℕ) → write m dst (m src) j ≡ moved m dst src 1 j
one_byte m dst src j = ground arith

away : (dst src k : ℕ) → IsUpwards dst src (suc k + 1) → (dst < src + 1) ⊎ (src + 1 + k < dst)
away dst src k (inl below) = inl (omega arith)
away dst src k (inr behind) = inr (omega arith)

-- `strcpy` of a string of `k` bytes ends, on more than `k` fuel, and moves the string with its end to
-- `dst`, keeping all other bytes, where `dst` is not in the string behind its start.
pub strcpy_lem :
    (fuel k dst src i : ℕ) (m : Array)
    → IsText m src k
    → k < fuel
    → IsUpwards dst src (k + 1)
    → (m' : Array) × (strcpy fuel m dst src ≡ some m')
      × (m' i ≡ (if leb dst i && ltb i (dst + (k + 1)) then m (src + (i - dst)) else m i))
unfolding strcpy
strcpy_lem zero k dst src i m text enough up = absurd (omega arith)
strcpy_lem (suc fuel) zero dst src i m text enough up =
    (write m dst (m src), rw text refl, one_byte m dst src i)
strcpy_lem (suc fuel) (suc k) dst src i m text enough up =
    let m1 = write m dst (m src) in
    let more : (m src == 0) ≡ false = ground (arith, text.0) in
    let up1 =
      shorter _ _ _ (k + 1) (rest-IsUpwards dst src (suc k + 1) 1 up (omega arith)) (omega arith) in
    let text1 = IsText-write k (src + 1) dst (m src) m text.1 (away dst src k up) in
    let (m', e, at) = strcpy_lem fuel k (dst + 1) (src + 1) i m1 text1 (omega arith) up1 in
    let total : 1 + (k + 1) ≡ suc k + 1 = omega arith in
    let whole = moved-moved m m1 dst src 1 (k + 1) i (rw total up) (one_byte m dst src) in
    (m', rw more e, at ∙ whole ∙ ap (λ n. moved m dst src n i) total)
