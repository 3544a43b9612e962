-- ===== src/Vm/Exception.antt =====
-- Environments, the operand stack and exceptions: libinsomniac_vm/vm_env.c, vm_exception.c, and
-- `vm_push` and `vm_pop` of vm_core.c.
use Prim.Native.String.{String}
use insomniac.Base.{
  ℕ, zero, suc, ◌+◌, ◌-◌, Bool, true, false, List, [], ◌∷◌, if◌then◌else◌, ◌==◌, length,
}
use insomniac.Vm.State.{Ptr, null, Object, Env}
use insomniac.Vm.Run.{M, pure, fault, abort, diverge, gets, modify, ◌>>=◌, ◌>>◌}
use insomniac.Vm.Text.{codes}
use insomniac.Vm.Heap.{
  load_env, load_table, allocate_env, allocate_table, store_env, vm_alloc, vm_make_string, cons,
}

unfoldable pub vm_push : Ptr → M (Unit {0})
vm_push obj = modify (λ vm. record vm { stack = obj ∷ vm.stack; depth = vm.depth + 1 })

-- the table is copied for a client that asks for copy on write
unfoldable pub clone_env : Ptr → Bool → M Ptr
unfolding load_env load_table allocate_env allocate_table
clone_env env cow = do
  e ← load_env env
  bindings ← if cow then load_table e.bindings >>= allocate_table else pure e.bindings
  allocate_env (record e { bindings = bindings })

-- what `gc_alloc_type` leaves in a new environment
abbrev pub blank_env : Env
blank_env = record {
  code_ref = [];
  length = 0;
  ip = 0;
  bindings = null;
  handler = false;
  handler_addr = 0;
  parent = null;
}

unfoldable pub set_current : Ptr → M (Unit {0})
set_current p = modify (λ vm. record vm { env = p })

-- the new child takes its position in the code from the parent, and no handler
unfoldable pub push_env : M (Unit {0})
unfolding load_env allocate_env allocate_table set_current
push_env = do
  table ← allocate_table []
  parent ← gets (λ vm. vm.env)
  e ← if parent == null then pure blank_env else load_env parent
  child ←
      allocate_env
        (record e { bindings = table; handler = false; handler_addr = 0; parent = parent })
  set_current child

unfoldable pub pop_env : M (Unit {0})
unfolding load_env set_current
pop_env = do
  env ← gets (λ vm. vm.env)
  if env == null then pure tt else (do e ← load_env env; set_current e.parent)

-- one pair for each object, the last object in front
unfoldable pub cons_all : List Ptr → Ptr → M Ptr
unfolding cons
cons_all [] list = pure list
cons_all (obj ∷ objs) list = cons obj list >>= cons_all objs

-- The exception is a list of the message, a closure of the place, and the objects; it is pushed.
unfoldable pub raise : String → List Ptr → M Ptr
unfolding cons_all vm_alloc clone_env vm_make_string cons vm_push
raise msg objs = do
  nil ← gets (λ vm. vm.empty)
  given ← cons_all objs nil
  current ← gets (λ vm. vm.env)
  place ← clone_env current false
  closure ← vm_alloc (Object.closure place)
  placed ← cons closure given
  text ← vm_make_string (codes msg) (length (codes msg))
  exception ← cons text placed
  vm_push exception
  pure exception

-- the nearest environment, from `p` outwards, with a handler; null if there is none
unfoldable pub find_handler : ℕ → Ptr → M Ptr
unfolding load_env
find_handler zero p = diverge
find_handler (suc n) p =
    if p == null
    then pure null
    else do e ← load_env p; if e.handler then pure p else find_handler n e.parent

abbrev pub pop_cell : List Ptr → List Ptr
pop_cell [] = []
pop_cell (obj ∷ stack) = stack

-- `depth` counts the cells of the stack, so that a pop of one does not take it below 0.
unfoldable pub drop_top : M (Unit {0})
drop_top = modify (λ vm. record vm { stack = pop_cell vm.stack; depth = vm.depth - 1 })

-- The handler runs in a copy of its environment, where it is switched off.
unfoldable pub enter_handler : Ptr → M (Unit {0})
unfolding clone_env load_env store_env set_current
enter_handler env = do
  copy ← clone_env env false
  e ← load_env copy
  store_env copy (record e { handler = false; ip = e.handler_addr })
  set_current copy

-- The environments are as many as the addresses in use, which bounds the search for a handler.
unfoldable pub handle_exception : Bool → String → List Ptr → M (Unit {0})
unfolding raise find_handler drop_top enter_handler
handle_exception fatal msg objs = do
  exception ← raise msg objs
  current ← gets (λ vm. vm.env)
  bound ← gets (λ vm. vm.next)
  handler ← if fatal then pure null else find_handler (suc bound) current
  if handler == null then drop_top >> abort exception else enter_handler handler

abbrev pub throw : String → List Ptr → M (Unit {0})
throw = handle_exception false

abbrev pub throw_fatal : String → List Ptr → M (Unit {0})
throw_fatal = handle_exception true

unfoldable pub pop_from : List Ptr → M Ptr
unfolding handle_exception
pop_from [] = do throw_fatal "Stack Under Run!" []; fault
pop_from (obj ∷ rest) = do
  if obj == null then throw_fatal "Null found in pop." [] else pure tt
  modify (λ vm. record vm { stack = rest; depth = vm.depth - 1 })
  pure obj

unfoldable pub vm_pop : M Ptr
unfolding pop_from
vm_pop = do stack ← gets (λ vm. vm.stack); pop_from stack
