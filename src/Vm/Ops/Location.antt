-- ===== src/Vm/Ops/Location.antt =====
-- vm_locations.c: variables and the exit status
use insomniac.Base.{
  ℕ, zero, suc, ◌%◌, ◌^◌, not, Option, none, some, List, [], ◌∷◌, if◌then◌else◌, ◌==◌,
}
use insomniac.Vm.State.{Ptr, null, CellType}
use insomniac.Vm.Run.{M, pure, diverge, gets, modify, ◌>>=◌}
use insomniac.Vm.Heap.{load_env, load_table, store_table, is_type}
use insomniac.Vm.Exception.{vm_push, vm_pop, throw}
use insomniac.Vm.Ops.Literal.{hash_get, hash_set, name_of}
use insomniac.Vm.Ops.Math.{load_integer}

-- `hash_set(env->bindings, key, value)`
unfoldable pub bind_in : Ptr → List ℕ → Ptr → M (Unit {0})
unfolding load_env load_table store_table hash_set
bind_in env key value = do
  e ← load_env env
  table ← load_table e.bindings
  store_table e.bindings (hash_set key value table)

unfoldable pub op_bind : M (Unit {0})
unfolding vm_pop is_type name_of bind_in
op_bind = do
  key ← vm_pop
  value ← vm_pop
  is_symbol ← is_type key CellType.symbol
  if not is_symbol
      then throw "Attempt to bind with non-symbol" (key ∷ value ∷ [])
      else (do name ← name_of key; env ← gets (λ vm. vm.env); bind_in env name value)

-- stop at a binding, or go on
unfoldable pub found_or : Ptr → Option Ptr → M (Option (Ptr × Ptr)) → M (Option (Ptr × Ptr))
found_or env (some value) further = pure (some (env, value))
found_or env none further = further

-- From `env` outwards, the first environment that binds the name, with the value. The fuel bounds
-- the length of the chain.
unfoldable pub find_binding : ℕ → List ℕ → Ptr → M (Option (Ptr × Ptr))
unfolding hash_get load_env load_table found_or
find_binding zero name env = diverge
find_binding (suc n) name env = if env == null then pure none else do
  e ← load_env env
  table ← load_table e.bindings
  found_or env (hash_get name table) (find_binding n name e.parent)

-- the search of `op_read` and `op_set`, from the current environment
unfoldable pub search_binding : List ℕ → M (Option (Ptr × Ptr))
unfolding find_binding
search_binding name = do
  env ← gets (λ vm. vm.env)
  bound ← gets (λ vm. vm.next)
  find_binding (suc bound) name env

unfoldable pub push_found : Ptr → Option (Ptr × Ptr) → M (Unit {0})
unfolding vm_push
push_found key (some (env, value)) = vm_push value
push_found key none = throw "Attempt to read undefined symbol" (key ∷ [])

unfoldable pub op_read : M (Unit {0})
unfolding vm_pop is_type name_of search_binding push_found
op_read = do
  key ← vm_pop
  is_symbol ← is_type key CellType.symbol
  if not is_symbol
      then throw "Attempt to read with non-symbol" (key ∷ [])
      else (do name ← name_of key; found ← search_binding name; push_found key found)

unfoldable pub set_found : Ptr → List ℕ → Ptr → Option (Ptr × Ptr) → M (Unit {0})
unfolding bind_in
set_found key name value (some (env, old)) = bind_in env name value
set_found key name value none = throw "Attempt to set undefined symbol" (key ∷ value ∷ [])

unfoldable pub op_set : M (Unit {0})
unfolding vm_pop is_type name_of search_binding set_found
op_set = do
  key ← vm_pop
  value ← vm_pop
  is_symbol ← is_type key CellType.symbol
  if not is_symbol
      then throw "Attempt to set with non-symbol" (key ∷ value ∷ [])
      else (do name ← name_of key; found ← search_binding name; set_found key name value found)

-- the status is an `int`
unfoldable pub op_set_exit : M (Unit {0})
unfolding vm_pop is_type load_integer
op_set_exit = do
  value ← vm_pop
  is_number ← is_type value CellType.fixnum
  if not is_number then throw "Attempt to set non-number exit status" (value ∷ []) else (do
    status ← load_integer value
    modify (λ vm. record vm { exit_status = status % 2 ^ 32 }))
