-- ===== src/Vm/Ops/Jump.antt =====
-- vm_jump.c: jumps, calls, closures and the exception handler of an environment
use insomniac.Base.{ℕ, ◌+◌, ◌%◌, true, false, not, Option, none, some, [], ◌∷◌, if◌then◌else◌}
use insomniac.Vm.State.{Ptr, CellType, Object}
use insomniac.Vm.Run.{M, pure, gets, need, ◌>>=◌, ◌>>◌}
use insomniac.Vm.Word.{word}
use insomniac.Vm.Heap.{deref, load_env, store_env, vm_alloc, is_type}
use insomniac.Vm.Exception.{vm_push, vm_pop, throw, clone_env, push_env, set_current}
use insomniac.Vm.Ops.Logic.{is_false}
use insomniac.Vm.Ops.Literal.{parse_int, advance}

unfoldable pub op_jnf : M (Unit {0})
unfolding parse_int vm_pop deref advance
op_jnf = do
  target ← parse_int
  obj ← vm_pop
  o ← deref obj
  if not (is_false o) then advance target else pure tt

unfoldable pub op_jmp : M (Unit {0})
unfolding parse_int advance
op_jmp = do target ← parse_int; advance target

-- the closure is the current environment itself, whose `ip` stands behind the call
unfoldable pub op_call : M (Unit {0})
unfolding parse_int vm_alloc vm_push push_env advance
op_call = do
  target ← parse_int
  env ← gets (λ vm. vm.env)
  closure ← vm_alloc (Object.closure env)
  vm_push closure
  push_env
  advance target

unfoldable pub closure_env : Object → Option Ptr
closure_env (Object.closure env) = some env
closure_env _ = none

unfoldable pub load_closure : Ptr → M Ptr
unfolding deref closure_env
load_closure p = do o ← deref p; need (closure_env o)

-- the copy of `child` with the bindings and the parent of `parent`
unfoldable pub adopt_env : Ptr → Ptr → M Ptr
unfolding clone_env load_env store_env
adopt_env child parent = do
  env ← clone_env child true
  e ← load_env env
  p ← load_env parent
  store_env env (record e { bindings = p.bindings; parent = p.parent })
  pure env

unfoldable pub op_adopt : M (Unit {0})
unfolding vm_pop is_type load_closure adopt_env vm_alloc vm_push
op_adopt = do
  parent ← vm_pop
  child ← vm_pop
  parent_closure ← is_type parent CellType.closure
  child_closure ← is_type child CellType.closure
  if not parent_closure
      then throw "Attempt to adopt with non-closure" (parent ∷ [])
      else if not child_closure
      then throw "Attempt to adopt non-closure" (child ∷ [])
      else (do
        from ← load_closure child
        to ← load_closure parent
        env ← adopt_env from to
        adopted ← vm_alloc (Object.closure env)
        vm_push adopted)

-- the copy of the current environment that starts `target` bytes further on
unfoldable pub proc_env : ℕ → M Ptr
unfolding clone_env load_env store_env
proc_env target = do
  current ← gets (λ vm. vm.env)
  env ← clone_env current false
  e ← load_env env
  store_env env (record e { ip = (e.ip + target) % word })
  pure env

unfoldable pub op_proc : M (Unit {0})
unfolding parse_int proc_env vm_alloc vm_push
op_proc = do
  target ← parse_int
  env ← proc_env target
  closure ← vm_alloc (Object.closure env)
  vm_push closure

-- a copy of `target`, with the bindings and the parent of the current environment
unfoldable pub jump_env : Ptr → M Ptr
unfolding clone_env load_env store_env
jump_env target = do
  current ← gets (λ vm. vm.env)
  env ← clone_env target false
  e ← load_env env
  old ← load_env current
  store_env env (record e { bindings = old.bindings; parent = old.parent })
  pure env

unfoldable pub op_jin : M (Unit {0})
unfolding vm_pop is_type load_closure jump_env set_current
op_jin = do
  closure ← vm_pop
  is_closure ← is_type closure CellType.closure
  if not is_closure
      then throw "Attempt to jump to non-closure" (closure ∷ [])
      else (do target ← load_closure closure; env ← jump_env target; set_current env)

-- `clone_env(vm, &(vm->env), closure->value.closure, false)`
unfoldable pub enter_copy : Ptr → M (Unit {0})
unfolding load_closure clone_env set_current
enter_copy closure = do target ← load_closure closure; env ← clone_env target false; set_current env

unfoldable pub op_ret : M (Unit {0})
unfolding vm_pop is_type enter_copy
op_ret = do
  closure ← vm_pop
  is_closure ← is_type closure CellType.closure
  if not is_closure
      then throw "Attempt to jump to non-closure" (closure ∷ [])
      else enter_copy closure

unfoldable pub op_call_in : M (Unit {0})
unfolding vm_pop is_type vm_alloc vm_push enter_copy push_env
op_call_in = do
  closure ← vm_pop
  is_closure ← is_type closure CellType.closure
  if not is_closure then throw "Attempt to jump to non-closure" (closure ∷ []) else (do
    current ← gets (λ vm. vm.env)
    ret ← vm_alloc (Object.closure current)
    vm_push ret
    enter_copy closure
    push_env)

unfoldable pub op_tail_call_in : M (Unit {0})
unfolding vm_pop is_type vm_push enter_copy push_env
op_tail_call_in = do
  closure ← vm_pop
  is_closure ← is_type closure CellType.closure
  if not is_closure then throw "Attempt to jump to non-closure" (closure ∷ []) else (do
    reg2 ← vm_pop
    reg3 ← vm_pop
    vm_push reg2
    vm_push reg3
    enter_copy closure
    push_env)

-- the address of the handler is absolute
unfoldable pub op_continue : M (Unit {0})
unfolding parse_int load_env store_env
op_continue = do
  target ← parse_int
  p ← gets (λ vm. vm.env)
  e ← load_env p
  store_env p (record e { handler = true; handler_addr = (e.ip + target) % word })

unfoldable pub op_restore : M (Unit {0})
unfolding load_env store_env
op_restore = do p ← gets (λ vm. vm.env); e ← load_env p; store_env p (record e { handler = true })
