-- ===== src/Vm/Heap.antt =====
-- Reads, writes and allocations in the stores of the machine. The collector is not seen here: an
-- allocation takes an unused address, and what is reachable stays where it is.
use insomniac.Base.{
  ℕ, ◌+◌, ◌*◌, ◌/◌, ◌%◌, ◌^◌, Bool, List, ◌++◌, ◌∷◌, [], if◌then◌else◌, ◌==◌, ltb, replicate,
}
use insomniac.Vm.State.{Ptr, null, CellType, Object, Env, Bindings, update, has_type}
use insomniac.Vm.Run.{M, pure, fault, gets, need, modify, ◌>>=◌, ◌>>◌}
use insomniac.Vm.Text.{strncpy}

unfoldable pub deref : Ptr → M Object
deref p = do need ((← gets (λ vm. vm.objects)) p)

unfoldable pub load_block : Ptr → M (List ℕ)
load_block p = do need ((← gets (λ vm. vm.blocks)) p)

unfoldable pub load_env : Ptr → M Env
load_env p = do need ((← gets (λ vm. vm.envs)) p)

unfoldable pub load_table : Ptr → M Bindings
load_table p = do need ((← gets (λ vm. vm.tables)) p)

unfoldable pub store_object : Ptr → Object → M (Unit {0})
store_object p o = modify (λ vm. record vm { objects = update vm.objects p o })

unfoldable pub store_block : Ptr → List ℕ → M (Unit {0})
store_block p b = modify (λ vm. record vm { blocks = update vm.blocks p b })

unfoldable pub store_env : Ptr → Env → M (Unit {0})
store_env p e = modify (λ vm. record vm { envs = update vm.envs p e })

unfoldable pub store_table : Ptr → Bindings → M (Unit {0})
store_table p t = modify (λ vm. record vm { tables = update vm.tables p t })

-- `gc_alloc_type` and `gc_alloc`: the next unused address
unfoldable pub fresh : M Ptr
fresh = do p ← gets (λ vm. vm.next); modify (λ vm. record vm { next = vm.next + 1 }); pure p

unfoldable pub allocate : Object → M Ptr
unfolding fresh store_object
allocate o = do p ← fresh; store_object p o; pure p

unfoldable pub allocate_block : List ℕ → M Ptr
unfolding fresh store_block
allocate_block b = do p ← fresh; store_block p b; pure p

unfoldable pub allocate_env : Env → M Ptr
unfolding fresh store_env
allocate_env e = do p ← fresh; store_env p e; pure p

unfoldable pub allocate_table : Bindings → M Ptr
unfolding fresh store_table
allocate_table t = do p ← fresh; store_table p t; pure p

-- `calloc` gives no more than the address space has: beyond, the collector writes through null.
abbrev pub address_space : ℕ
address_space = 2 ^ 47

unfoldable pub reserve : ℕ → M (Unit {0})
reserve size = if ltb size address_space then pure tt else fault

-- The caller sets the fields of the new object before anything reads them.
unfoldable pub vm_alloc : Object → M Ptr
unfolding allocate
vm_alloc Object.empty = do
  unique ← gets (λ vm. vm.empty)
  if unique == null then allocate Object.empty else pure unique
vm_alloc o = allocate o

unfoldable pub cons : Ptr → Ptr → M Ptr
unfolding vm_alloc
cons car cdr = vm_alloc (Object.pair car cdr)

-- `buf` is what the source pointer leads to; `strncpy` must not write behind the new block.
unfoldable pub vm_make_string : List ℕ → ℕ → M Ptr
unfolding vm_alloc allocate_block reserve
vm_make_string buf length =
    let size = (length + 1) % 2 ^ 64 in
    do
      reserve size
      if ltb length size then pure tt else fault
      copied ← need (strncpy buf length)
      bytes ← allocate_block (copied ++ 0 ∷ [])
      vm_alloc (Object.string length bytes)

unfoldable pub vm_make_byte_vector : ℕ → M Ptr
unfolding vm_alloc allocate_block reserve
vm_make_byte_vector length = do
  reserve length
  bytes ← allocate_block (replicate length 0)
  vm_alloc (Object.byte_vector length bytes)

-- the array has as many cells as its size in bytes says, a product that can wrap
unfoldable pub cells : ℕ → M (List Ptr)
unfolding reserve
cells length = let size = (8 * length) % 2 ^ 64 in do reserve size; pure (replicate (size / 8) null)

unfoldable pub vm_make_vector : ℕ → M Ptr
unfolding vm_alloc cells
vm_make_vector length = do elements ← cells length; vm_alloc (Object.vector length elements)

unfoldable pub vm_make_record : ℕ → M Ptr
unfolding vm_alloc cells
vm_make_record length =
    let slots = (length + 1) % 2 ^ 64 in
    do elements ← cells slots; vm_alloc (Object.record_type slots elements)

-- `obj && obj->type == t`
unfoldable pub is_type : Ptr → CellType → M Bool
unfolding deref
is_type p t = if p == null then pure Bool.false else (do o ← deref p; pure (has_type o t))
