-- ===== src/Base/Bytes.antt =====
-- Memories and arrays as functions from the index, a write to one index, and statements about all
-- values below a bound, checked by evaluation.
use wukong_am.Base.{
  ◌+◌, ◌-◌, leb, ltb, ℕ, zero, suc, ◌<◌, ◌≡◌, Bool, true, ◌&&◌, ◌==◌, if◌then◌else◌, arith,
}

abbrev pub Array : Type 0
Array = ℕ → ℕ

abbrev pub write : Array → ℕ → ℕ → Array
write m a v i = if i == a then v else m i

-- Every element fits a byte.
abbrev pub IsBytes : Array → Type 0
IsBytes m = (i : ℕ) → m i < 256

pub write-IsBytes : (m : Array) (a v : ℕ) → IsBytes m → v < 256 → IsBytes (write m a v)
write-IsBytes m a v h k i = ground (arith, h i)

unfoldable pub all_below : ℕ → (ℕ → Bool) → Bool
all_below zero test = true
all_below (suc bound) test = test bound && all_below bound test

pub all_below_sound :
    (bound : ℕ) (test : ℕ → Bool) (value : ℕ)
    → all_below bound test ≡ true
    → value < bound
    → test value ≡ true
unfolding all_below
all_below_sound (suc bound) test value all less = ground (arith, all_below_sound bound test value)
all_below_sound zero test value all less = absurd (omega arith)

-- `memcpy(&m[a], source, n)`, of disjoint arrays.
abbrev pub copy : Array → ℕ → Array → ℕ → Array
copy m a source n i = if leb a i && ltb i (a + n) then source (i - a) else m i

pub copy-IsBytes :
    (m : Array) (a : ℕ) (source : Array) (n : ℕ)
    → IsBytes m
    → IsBytes source
    → IsBytes (copy m a source n)
copy-IsBytes m a source n h k i = ground (arith, h i, k (i - a))
