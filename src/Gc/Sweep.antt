-- ===== src/Gc/Sweep.antt =====
-- gc_sweep.c and gc_internals.c: sweeping and allocation.
use insomniac.Base.{
  ℕ, zero, suc, ◌+◌, ◌-◌, ◌%◌, Bool, false, none, some, List, [], ◌∷◌, if◌then◌else◌, ◌==◌,
}
use insomniac.Gc.State.{
  Result, done, aborted, undefined, unfinished, ◌>>=◌, Pointer, Mark, red, black, perm, dead,
  same_mark, Meta, store, Gc,
}
use insomniac.Gc.Mark.{mark_list, mark_root}

unfoldable pub set_next_mark : Gc → Gc
set_next_mark gc = record gc { current_mark = if same_mark gc.current_mark red then black else red }

-- one object of the active list, in the loop of `sweep_list`
unfoldable pub sweep_object : Mark → ℕ → Meta → Gc → Gc
sweep_object mark p meta gc =
    if same_mark meta.mark mark
    then record gc { active_list = p ∷ gc.active_list }
    else if meta.size == gc.cell_size
    then record gc {
      heap = store gc.heap p (some (record meta { mark = dead }));
      dead_list = p ∷ gc.dead_list;
    }
    else record gc { heap = store gc.heap p none; allocations = gc.allocations - 1 }

unfoldable pub sweep_objects : Mark → List ℕ → Gc → Result Gc
unfolding sweep_object
sweep_objects mark [] gc = done gc
sweep_objects mark (p ∷ active) gc = elim (gc.heap p) [
  | none ↦ undefined
  | some meta ↦ sweep_objects mark active (sweep_object mark p meta gc)
]

-- The loop starts with a new active list, and with the dead list as it is.
unfoldable pub sweep_list : Mark → Gc → Result Gc
unfolding sweep_objects
sweep_list mark gc = elim gc.protect_count [
  | suc _ ↦ done gc
  | zero ↦ sweep_objects mark gc.active_list (record gc { active_list = [] })
]

-- `gc_malloc` gives out multiples of the granularity.
unfoldable pub real_size : ℕ → Gc → ℕ
real_size size gc = size + (gc.size_granularity - (size % gc.size_granularity))

-- a new object at the head of its list
unfoldable pub attach : Bool → ℕ → ℕ → Gc → ℕ × Gc
attach permanent size p gc =
    let mark = if permanent then perm else gc.current_mark in
    let meta : Meta = record { mark = mark; size = size; type_def = some 0; slots = λ _. none } in
    let filled = record gc { heap = store gc.heap p (some meta) } in
    if permanent
    then (p, record filled { perm_list = p ∷ gc.perm_list })
    else (p, record filled { active_list = p ∷ gc.active_list })

-- MALLOC of an object: `calloc` has room, and gives an address that was not in use
unfoldable pub attach_new : Bool → ℕ → Gc → ℕ × Gc
unfolding attach
attach_new permanent size gc =
    attach permanent size gc.fresh
      (record gc { fresh = suc gc.fresh; allocations = gc.allocations + 1 })

-- an object from the dead list, if there is one; `bzero` makes it null
unfoldable pub take_dead : Bool → ℕ → Gc → ℕ × Gc
unfolding attach attach_new
take_dead permanent size gc = elim gc.dead_list [
  | [] ↦ attach_new permanent size gc
  | p ∷ rest ↦ attach permanent size p (record gc { dead_list = rest })
]

-- The parameter is a call of `sweep`.
module _ (sweep : Gc → Result Gc) where
  unfoldable pub internal_alloc : Bool → ℕ → Gc → Result (ℕ × Gc)
  unfolding ◌>>=◌ take_dead attach_new
  internal_alloc permanent size gc =
      if size == gc.cell_size
      then (elim gc.dead_list [ [] ↦ sweep gc | _ ∷ _ ↦ done gc ] >>= λ swept.
          done (take_dead permanent size swept))
      else done (attach_new permanent size gc)

  unfoldable pub gc_alloc : Bool → ℕ → Gc → Result (ℕ × Gc)
  unfolding ◌>>=◌ internal_alloc
  gc_alloc permanent size gc = internal_alloc permanent size gc >>= λ (p, next).
      elim (next.heap p) [
        | none ↦ undefined
        | some meta ↦
            done
              (p, record next { heap = store next.heap p (some (record meta { type_def = none })) })
      ]

  unfoldable pub gc_unprotect : Gc → Result Gc
  gc_unprotect gc = elim gc.protect_count [
    | zero ↦ aborted
    | suc count ↦
        let next = record gc { protect_count = count } in
        elim count [
          | suc _ ↦ done next
          | zero ↦ elim gc.dead_list [ [] ↦ sweep next | _ ∷ _ ↦ done next ]
        ]
  ]

  unfoldable pub alloc_cells : ℕ → Gc → Result Gc
  unfolding ◌>>=◌ gc_alloc
  alloc_cells zero gc = done gc
  alloc_cells (suc count) gc =
      gc_alloc false gc.cell_size gc >>= λ (p, next). alloc_cells count next

unfoldable pub gc_protect : Gc → Gc
gc_protect gc = record gc { protect_count = suc gc.protect_count }

-- the cells that `pre_alloc` makes
unfoldable pub prealloc_count : ℕ
prealloc_count = 1000

unfoldable pub pre_alloc : (Gc → Result Gc) → Gc → Result Gc
unfolding ◌>>=◌ gc_protect alloc_cells gc_unprotect prealloc_count
pre_alloc sweep gc =
    alloc_cells sweep prealloc_count (gc_protect gc) >>= gc_unprotect sweep >>= sweep

-- `sweep` up to the call of `pre_alloc`; `fuel` bounds the depth of marking
unfoldable pub collect : ℕ → (ℕ → Pointer) → Gc → Result Gc
unfolding ◌>>=◌ set_next_mark mark_list mark_root sweep_list
collect fuel variables gc =
    let next = set_next_mark gc in
    let mark = next.current_mark in
    mark_list next.types mark fuel next.perm_list next.heap
    >>= mark_root next.types mark fuel variables next.root_list
    >>= λ h. sweep_list mark (record next { heap = h })

-- `depth` bounds the calls of `sweep` inside one another
unfoldable pub sweep : ℕ → ℕ → (ℕ → Pointer) → Gc → Result Gc
unfolding ◌>>=◌ collect pre_alloc
sweep zero fuel variables gc = unfinished
sweep (suc depth) fuel variables gc = elim gc.protect_count [
  | suc _ ↦ done gc
  | zero ↦ collect fuel variables gc >>= λ next. elim next.dead_list [
    | [] ↦ pre_alloc (sweep depth fuel variables) next
    | _ ∷ _ ↦ done next
  ]
]
