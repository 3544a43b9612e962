-- ===== src/Vm/Code.antt =====
-- What the instructions read from the code is what the assembler put there.
pub mod Bytes
