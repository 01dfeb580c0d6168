-- ===== src/Tests.antt =====
-- Sample states of the transpiler, on which the theorems of the other modules are applied.
pub mod Samples
pub mod Hierarchies
pub mod Inputs
pub mod Runs
pub mod Programs
pub mod Names
pub mod Heaps
pub mod Counts
pub mod Commands
pub mod Counting
pub mod Counters
