-- ===== src/Vm/Ops.antt =====
-- The instructions: libinsomniac_vm/libinsomniac_vm_instructions.
pub mod Stack
pub mod Pair
pub mod Logic
pub mod Math
pub mod Literal
pub mod Vector
pub mod Jump
pub mod Location
