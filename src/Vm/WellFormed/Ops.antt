-- ===== src/Vm/WellFormed/Ops.antt =====
-- The invariant under the instructions.
pub mod Basic
pub mod Code
pub mod Jump
pub mod Location
