-- ===== src/Vm/Ops/Pair.antt =====
-- vm_list.c
use insomniac.Base.{Bool, false, Option, none, some, [], ◌∷◌, if◌then◌else◌, ◌==◌}
use insomniac.Vm.State.{Ptr, null, CellType, Object}
use insomniac.Vm.Run.{M, pure, need, ◌>>=◌, ◌>>◌}
use insomniac.Vm.Heap.{deref, store_object, cons, is_type}
use insomniac.Vm.Exception.{vm_push, vm_pop, throw}

-- `value.pair` of a pair
unfoldable pub pair_parts : Object → Option (Ptr × Ptr)
pair_parts (Object.pair car cdr) = some (car, cdr)
pair_parts _ = none

unfoldable pub load_pair : Ptr → M (Ptr × Ptr)
unfolding deref pair_parts
load_pair p = do o ← deref p; need (pair_parts o)

unfoldable pub op_cons : M (Unit {0})
unfolding vm_pop cons vm_push
op_cons = do car ← vm_pop; cdr ← vm_pop; reg3 ← cons car cdr; vm_push reg3

unfoldable pub op_car : M (Unit {0})
unfolding vm_pop is_type load_pair vm_push
op_car = do
  obj ← vm_pop
  is_pair ← is_type obj CellType.pair
  if is_pair
      then (do parts ← load_pair obj; vm_push parts.0)
      else throw "Attempt to read the car of a non-pair" (obj ∷ [])

unfoldable pub op_cdr : M (Unit {0})
unfolding vm_pop is_type load_pair vm_push
op_cdr = do
  obj ← vm_pop
  is_pair ← is_type obj CellType.pair
  if is_pair
      then (do parts ← load_pair obj; vm_push parts.1)
      else throw "Attempt to read the cdr of a non-pair" (obj ∷ [])

-- `obj && pair && pair->type == PAIR`
unfoldable pub can_set : Ptr → Ptr → M Bool
unfolding is_type
can_set obj pair = if obj == null then pure false else is_type pair CellType.pair

unfoldable pub op_set_car : M (Unit {0})
unfolding vm_pop can_set load_pair store_object vm_push
op_set_car = do
  obj ← vm_pop
  pair ← vm_pop
  allowed ← can_set obj pair
  if allowed
      then (do parts ← load_pair pair; store_object pair (Object.pair obj parts.1); vm_push pair)
      else throw "Attempt to set the car of a non-pair or set car to non-object" (obj ∷ pair ∷ [])

unfoldable pub op_set_cdr : M (Unit {0})
unfolding vm_pop can_set load_pair store_object vm_push
op_set_cdr = do
  obj ← vm_pop
  pair ← vm_pop
  allowed ← can_set obj pair
  if allowed
      then (do parts ← load_pair pair; store_object pair (Object.pair parts.0 obj); vm_push pair)
      else throw "Attempt to set the cdr of a non-pair or set cdr to non-object" (obj ∷ pair ∷ [])
