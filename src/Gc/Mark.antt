-- ===== src/Gc/Mark.antt =====
-- gc_sweep.c: marking.
use insomniac.Base.{ℕ, zero, suc, ◌+◌, ◌/◌, none, some, List, [], ◌∷◌, if◌then◌else◌, get_elem?}
use insomniac.Gc.State.{
  Result, done, aborted, undefined, unfinished, ◌>>=◌, Pointer, Mark, perm, dead, same_mark, Meta,
  Field, ptr, array, Types, Heap, store, array_size,
}

-- the mark that `mark_object` leaves
unfoldable pub mark_object : Mark → Meta → Meta
mark_object mark meta = if same_mark meta.mark perm then meta else record meta { mark = mark }

-- sizeof(void *)
abbrev pub pointer_size : ℕ
pointer_size = 8

-- `go` marks from one pointer, a call of `mark_graph`. The fields of an object do not change while
-- it is marked, so that `slots` are read once.
module _ (types : Types) (go : Heap → Pointer → Result Heap) where
  -- the `count` pointers from `base` on
  unfoldable pub mark_array : ℕ → (ℕ → Pointer) → ℕ → Heap → Result Heap
  unfolding ◌>>=◌
  mark_array zero slots base h = done h
  mark_array (suc count) slots base h =
      go h (slots base) >>= mark_array count slots (base + pointer_size)

  -- the loop over the definition of the type
  unfoldable pub mark_fields : List Field → Meta → Heap → Result Heap
  unfolding ◌>>=◌ mark_array
  mark_fields [] meta h = done h
  mark_fields (ptr offset ∷ fields) meta h = go h (meta.slots offset) >>= mark_fields fields meta
  mark_fields (array offset ∷ fields) meta h =
      mark_array (meta.size / array_size types) meta.slots offset h >>= mark_fields fields meta

  -- an object without a type is not searched
  unfoldable pub mark_typed : Meta → Heap → Result Heap
  unfolding mark_fields
  mark_typed meta h = elim meta.type_def [
    | none ↦ done h
    | some type ↦ elim (get_elem? types.type_defs type) [
      | none ↦ undefined
      | some definition ↦ mark_fields definition.root_list meta h
    ]
  ]

  -- what `mark_graph` does with an object
  unfoldable pub mark_meta : Mark → ℕ → Meta → Heap → Result Heap
  unfolding mark_typed mark_object
  mark_meta mark p meta h =
      if same_mark meta.mark mark
      then done h
      else if same_mark meta.mark dead
      then aborted
      else mark_typed meta (store h p (some (mark_object mark meta)))

module _ (types : Types) (mark : Mark) where
  unfoldable pub mark_graph : ℕ → Heap → Pointer → Result Heap
  unfolding mark_meta
  mark_graph zero h p = unfinished
  mark_graph (suc fuel) h none = done h
  mark_graph (suc fuel) h (some p) = elim (h p) [
    | none ↦ undefined
    | some meta ↦ mark_meta types (mark_graph fuel) mark p meta h
  ]

  unfoldable pub mark_list : ℕ → List ℕ → Heap → Result Heap
  unfolding ◌>>=◌ mark_graph
  mark_list fuel [] h = done h
  mark_list fuel (p ∷ list) h = mark_graph fuel h (some p) >>= mark_list fuel list

  -- `variables` gives what the variables hold
  unfoldable pub mark_root : ℕ → (ℕ → Pointer) → List ℕ → Heap → Result Heap
  unfolding ◌>>=◌ mark_graph
  mark_root fuel variables [] h = done h
  mark_root fuel variables (root ∷ list) h =
      mark_graph fuel h (variables root) >>= mark_root fuel variables list
