-- ===== src/Klib/Tests.antt =====
-- The theorems of libs/klib at concrete inputs.
use wukong_am.Base.{◌≡◌, arith, inl}
use wukong_am.Base.Bytes.{Array}
use wukong_am.Base.{some, refl, inr}
use wukong_am.Base.Bytes.{write}
use wukong_am.Klib.Text.{strcpy}
use wukong_am.Klib.Text.Laws.{IsText, strcpy_lem}
use wukong_am.Base.{List, [], ◌∷◌}
use wukong_am.Klib.Heap.{Area}
use wukong_am.Klib.Heap.Blocks.{
  Call, allocate, release, calls, count_calls, is_moderate, IsLayout, unused, calls-IsLayout,
}
use wukong_am.Klib.Mem.{memset, memcpy, memmove}
use wukong_am.Klib.Mem.Fill.{memset_lem}
use wukong_am.Klib.Mem.Copy.{memcpy_lem, memmove_lem}

-- Memory in which each cell holds its index.
abbrev numbered : Array
numbered i = i

memset_example : memset numbered 0x1003 0x1ab 40 0x102a ≡ 0xab
memset_example = memset_lem numbered 0x1003 0x1ab 40 0x102a

memcpy_example : memcpy numbered 0x1003 0x2003 40 0x102a ≡ 0x202a
memcpy_example = memcpy_lem numbered 0x1003 0x2003 40 0x102a (inl (omega arith))

memmove_example : memmove numbered 0x1008 0x1000 40 0x1010 ≡ 0x1008
memmove_example = memmove_lem numbered 0x1008 0x1000 40 0x1010

-- The string `AA` at 8.
abbrev text : Array
text = write (λ i. 0x41) 10 0

text-IsText : IsText text 8 2
text-IsText = (omega arith, (omega arith, refl))

strcpy_example : (m' : Array) × (strcpy 5 text 20 8 ≡ some m') × (m' 22 ≡ 0)
strcpy_example = strcpy_lem 5 2 20 8 22 text text-IsText (omega arith) (inr (omega arith))

abbrev heap : Area
heap = record { start = 0x80000000; end = 0x80001000 }

-- 20 bytes, 8 bytes, more than is left, a release of the second block, and 100 bytes.
abbrev requests : List Call
requests = allocate 20 ∷ allocate 8 ∷ allocate 4096 ∷ release 0x80000018 ∷ allocate 100 ∷ []

calls-IsLayout_example : IsLayout heap (calls heap requests unused).live
unfolding is_moderate count_calls
calls-IsLayout_example = calls-IsLayout heap requests (omega arith) (omega arith) refl (omega arith)
