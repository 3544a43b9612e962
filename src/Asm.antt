-- ===== src/Asm.antt =====
-- The assembler: include/emit.h and libinsomniac_asm.
pub mod Emit
pub mod Core
pub mod Assemble
pub mod Jumps
pub mod Loop
pub mod Program
pub mod Items
pub mod Layout
pub mod Places
