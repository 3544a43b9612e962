-- ===== src/Examples.antt =====
-- Concrete machines, and the theorems at them.
pub mod Machine
pub mod Effect
pub mod Run
pub mod Buffer
pub mod Hash
pub mod Gc
pub mod Bootstrap
mod Asm
