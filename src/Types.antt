-- ===== src/Types.antt =====
-- The type system of the transpiler.
pub mod LangType
pub mod Registry
pub mod Hierarchy
pub mod VTable
pub mod Resolve
