-- ===== src/Bench.antt =====
-- The benchmark suite of apps/microbench.
pub mod Qsort
mod Tests
