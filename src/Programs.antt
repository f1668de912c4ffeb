-- ===== src/Programs.antt =====
-- The C programs of benchmarks/slmc/programs, on an explicit heap.
pub mod Heap
pub mod Stack
pub mod SchorrWaite
