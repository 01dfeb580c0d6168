-- ===== src/Runtime.antt =====
-- The runtime that translated programs are linked with: runtime/.
pub mod Machine
pub mod MarkSweep
pub mod RefCount
pub mod Simple
pub mod Interface
pub mod Allocators
