-- ===== src/Vm.antt =====
-- The virtual machine of src/libinsomniac_vm.
pub mod State
pub mod Run
pub mod Text
pub mod Heap
pub mod Exception
pub mod Word
pub mod Ops
pub mod Opcode
pub mod Eval
pub mod Core
pub mod Triple
pub mod Table
pub mod Tables
pub mod Types
pub mod WellFormed
pub mod Effect
pub mod Code
pub mod Loop
