-- ===== src/Gc/Core.antt =====
-- gc_core.c: the functions that the rest of the program calls.
use insomniac.Base.{
  ℕ, ◌+◌, ◌-◌, ◌*◌, ◌==◌, Bool, none, some, List, [], ◌∷◌, if◌then◌else◌, get_elem?, length,
}
use insomniac.Gc.State.{
  Result, done, aborted, undefined, ◌>>=◌, Pointer, red, perm, same_mark, Gc, store, array_size,
}
use insomniac.Gc.Types.{gc_register_type, gc_register_array, destroy_types}
use insomniac.Gc.Mark.{pointer_size}
use insomniac.Gc.Sweep.{internal_alloc, sweep}

-- `meta_bytes` is sizeof(meta_obj_type)
unfoldable pub gc_create : ℕ → ℕ → Result Gc
unfolding gc_register_type gc_register_array
gc_create meta_bytes cell_size =
    let blank : Gc = record {
      heap = λ _. none;
      fresh = 0;
      active_list = [];
      dead_list = [];
      perm_list = [];
      root_list = [];
      types = record { type_defs = []; array_type = 0 };
      cell_size = cell_size;
      size_granularity = meta_bytes + cell_size;
      protect_count = 0;
      allocations = 0;
      current_mark = red;
    } in
    let (array_type, gc) = gc_register_type pointer_size blank in
    gc_register_array array_type 0
      (record gc { types = record gc.types { array_type = array_type } })

-- an object that is freed twice was not in the heap the second time
unfoldable pub destroy_list : List ℕ → Gc → Result Gc
destroy_list [] gc = done gc
destroy_list (p ∷ list) gc = elim (gc.heap p) [
  | none ↦ undefined
  | some _ ↦
      destroy_list list
        (record gc { heap = store gc.heap p none; allocations = gc.allocations - 1 })
]

-- The three lists, then the types. The last FREE counts the collector itself.
unfoldable pub gc_destroy : Gc → Result Gc
unfolding ◌>>=◌ destroy_list destroy_types
gc_destroy gc =
    destroy_list gc.active_list gc
    >>= destroy_list gc.dead_list
    >>= destroy_list gc.perm_list
    >>= λ last. done (record last {
      active_list = [];
      dead_list = [];
      perm_list = [];
      allocations = destroy_types last.types.type_defs last.allocations - 1;
    })

unfoldable pub gc_register_root : ℕ → Gc → Gc
gc_register_root root gc = record gc {
  root_list = root ∷ gc.root_list;
  allocations = gc.allocations + 1;
}

-- The loop stops at the element it looks for, or at the last one: the element where it stops, and
-- the list without that element.
unfoldable pub find_meta : ℕ → ℕ → List ℕ → ℕ × List ℕ
find_meta sought here [] = (here, [])
find_meta sought here (next ∷ rest) =
    let (found, others) = find_meta sought next rest in
    if here == sought then (here, next ∷ rest) else (found, here ∷ others)

unfoldable pub gc_unregister_root : ℕ → Gc → Result Gc
unfolding find_meta
gc_unregister_root root gc = elim gc.root_list [
  | [] ↦ undefined
  | first ∷ rest ↦
      let (found, others) = find_meta root first rest in
      if found == root
      then done (record gc { root_list = others; allocations = gc.allocations - 1 })
      else aborted
]

-- The element where the loop stops moves to the active list, without a test that it is the object.
unfoldable pub move_perm : ℕ → Gc → Result Gc
unfolding find_meta
move_perm object gc = elim gc.perm_list [
  | [] ↦ undefined
  | first ∷ rest ↦
      let (found, others) = find_meta object first rest in
      done (record gc { perm_list = others; active_list = found ∷ gc.active_list })
]

unfoldable pub gc_de_perm : ℕ → Gc → Result Gc
unfolding move_perm
gc_de_perm object gc = elim (gc.heap object) [
  | none ↦ undefined
  | some meta ↦
      if same_mark meta.mark perm
      then move_perm object (record gc {
        heap = store gc.heap object (some (record meta { mark = gc.current_mark }));
      })
      else done gc
]

-- a new object gets its type
unfoldable pub set_type : ℕ → ℕ × Gc → Result (ℕ × Gc)
set_type type (p, gc) = elim (gc.heap p) [
  | none ↦ undefined
  | some meta ↦
      done (p, record gc { heap = store gc.heap p (some (record meta { type_def = some type })) })
]

-- The parameter is a call of `sweep`.
module _ (sweep : Gc → Result Gc) where
  unfoldable pub gc_alloc_type : Bool → ℕ → Gc → Result (ℕ × Gc)
  unfolding ◌>>=◌ internal_alloc set_type
  gc_alloc_type permanent type gc = elim (get_elem? gc.types.type_defs type) [
    | none ↦ undefined
    | some definition ↦ internal_alloc sweep permanent definition.size gc >>= set_type type
  ]

  unfoldable pub gc_alloc_pointer_array : Bool → ℕ → Gc → Result (ℕ × Gc)
  unfolding ◌>>=◌ internal_alloc set_type
  gc_alloc_pointer_array permanent cells gc =
      internal_alloc sweep permanent (array_size gc.types * cells) gc
      >>= set_type gc.types.array_type

-- the numbers that `gc_stats` prints
unfoldable pub gc_stats : Gc → ℕ × ℕ × ℕ × ℕ
gc_stats gc = (length gc.active_list, length gc.dead_list, length gc.perm_list, gc.allocations)

unfoldable pub gc_sweep : ℕ → ℕ → (ℕ → Pointer) → Gc → Result Gc
unfolding sweep
gc_sweep depth fuel variables gc = sweep depth fuel variables gc
