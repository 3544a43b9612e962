-- ===== src/Vm/Effect/Logic.antt =====
-- vm_logic.c and the type tests.
use insomniac.Base.{◌≡◌, ◌≢◌, List, ◌∷◌, arith, some, Bool, if◌then◌else◌}
use insomniac.Vm.State.{Ptr, null, Vm, Object, CellType, cell_number}
use insomniac.Vm.Run.{done, ◌>>=◌}
use insomniac.Vm.Effect.{with_stack}
use insomniac.Vm.Ops.Logic.{op_not, type_op, is_false}

-- the object that stands for a truth value
abbrev pub truth : Bool → Vm → Ptr
truth b vm = if b then vm.vm_true else vm.vm_false

pub cell_number-injective : (t u : CellType) → cell_number t ≡ cell_number u → t ≡ u
cell_number-injective t u h = ground arith

module _ (p : Ptr) (o : Object) (s : List Ptr) (vm : Vm) (hp : p ≢ null)
    (holds : vm.objects p ≡ some o) where
  pub type_op_lem :
      (test : Object → Bool)
      → type_op test (with_stack (p ∷ s) vm) ≡ done tt (with_stack (truth (test o) vm ∷ s) vm)
  unfolding type_op ◌>>=◌
  type_op_lem test = ground arith

  pub op_not_lem :
      op_not (with_stack (p ∷ s) vm) ≡ done tt (with_stack (truth (is_false o) vm ∷ s) vm)
  unfolding op_not ◌>>=◌
  op_not_lem = ground arith
