-- ===== src/Vm/WellFormed.antt =====
-- The invariant of the machine: the depth counts the stack, and an environment stands above its
-- parent, so that the chain of parents ends.
pub mod Heap
pub mod Frame
pub mod Raise
pub mod Ops
pub mod Eval
use insomniac.Base.{ℕ, ◌≡◌, ◌<◌, Option, some, length}
use insomniac.Vm.State.{Ptr, Env, Vm}

pub record IsWellFormed (vm : Vm) : Type 0 where
  pub counted : vm.depth ≡ length vm.stack
  pub current : vm.env < vm.next
  pub chained : (p : Ptr) (e : Env) → vm.envs p ≡ some e → (e.parent < p) × (p < vm.next)
