-- ===== src/Gc.antt =====
-- The mark and sweep collector, libinsomniac_gc.
pub mod State
pub mod Types
pub mod Mark
pub mod Sweep
pub mod Core
pub mod Reach
pub mod Marking
pub mod Sweeping
pub mod Roots
pub mod Perm
pub mod Create
pub mod Destroy
