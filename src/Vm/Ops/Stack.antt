-- ===== src/Vm/Ops/Stack.antt =====
-- vm_stack.c
use insomniac.Vm.State.{Object}
use insomniac.Vm.Run.{M, pure, gets, ◌>>=◌, ◌>>◌}
use insomniac.Vm.Heap.{vm_alloc}
use insomniac.Vm.Exception.{vm_push, vm_pop}

unfoldable pub op_swap : M (Unit {0})
unfolding vm_pop vm_push
op_swap = do reg1 ← vm_pop; reg2 ← vm_pop; vm_push reg1; vm_push reg2

unfoldable pub op_rot : M (Unit {0})
unfolding vm_pop vm_push
op_rot = do reg1 ← vm_pop; reg2 ← vm_pop; reg3 ← vm_pop; vm_push reg1; vm_push reg3; vm_push reg2

unfoldable pub op_dup_ref : M (Unit {0})
unfolding vm_pop vm_push
op_dup_ref = do reg1 ← vm_pop; vm_push reg1; vm_push reg1

unfoldable pub op_depth : M (Unit {0})
unfolding vm_alloc vm_push
op_depth = do depth ← gets (λ vm. vm.depth); reg1 ← vm_alloc (Object.fixnum depth); vm_push reg1

unfoldable pub op_drop : M (Unit {0})
unfolding vm_pop
op_drop = do _ ← vm_pop; pure tt
