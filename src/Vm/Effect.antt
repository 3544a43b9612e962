-- ===== src/Vm/Effect.antt =====
-- What the instructions do, on machines whose stack is given.
pub mod Stack
pub mod Pair
pub mod Logic
pub mod Math
pub mod Vector
pub mod Literal
pub mod Symbol
pub mod Binding
pub mod Location
pub mod Jump
pub mod Raise
pub mod Exception
use insomniac.Base.{List, length}
use insomniac.Vm.State.{Ptr, Vm}

-- `vm` with the stack `s`
abbrev pub with_stack : List Ptr → Vm → Vm
with_stack s vm = record vm { stack = s; depth = length s }
