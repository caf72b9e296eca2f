-- ===== src/Bench/Tests.antt =====
-- The theorems of apps/microbench at concrete inputs.
use wukong_am.Base.{◌≡◌, ◌==◌, if◌then◌else◌, arith, some}
use wukong_am.Base.Bytes.{Array}
use wukong_am.Bench.Qsort.{myqsort}
use wukong_am.Bench.Qsort.Laws.{IsSorted, myqsort-IsSorted}

-- 3, -1 and then 2 everywhere.
abbrev numbers : Array
numbers i = if i == 0 then 3 else if i == 1 then 0xffff_ffff else 2

myqsort-IsSorted_example :
    (sorted : Array) × (myqsort 4 numbers 0 3 ≡ some sorted) × IsSorted 0 3 numbers sorted
myqsort-IsSorted_example = myqsort-IsSorted 4 0 3 numbers (omega arith)
