-- ===== src/Gc/State.antt =====
-- gc_internal.h: the collector's state, and the results of its functions.
use insomniac.Base.{ℕ, Bool, true, false, Option, none, some, List, if◌then◌else◌, get_elem?, ◌==◌}

-- `aborted` is a failed assertion, `undefined` what C leaves open (a null or dangling pointer is
-- followed, an index lies outside), `unfinished` a run out of fuel.
pub data Result (A : Type 0) : Type 0 where
  done : A → Result A
  aborted undefined unfinished : Result A

module _ {A B : Type 0} where
  infixl 5 ◌>>=◌
  unfoldable pub ◌>>=◌ : Result A → (A → Result B) → Result B
  ◌>>=◌ (done a) f = f a
  ◌>>=◌ aborted f = aborted
  ◌>>=◌ undefined f = undefined
  ◌>>=◌ unfinished f = unfinished

-- A pointer to an object: the address of its meta object, or null. The object follows its meta
-- object in memory, so that `meta_from_obj` and `obj_from_meta` only convert between two names.
abbrev pub Pointer : Type 0
Pointer = Option ℕ

-- `enum mark`
pub data Mark : Type 0 where
  red black perm dead : Mark

abbrev pub same_mark : Mark → Mark → Bool
same_mark red red = true
same_mark black black = true
same_mark perm perm = true
same_mark dead dead = true
same_mark _ _ = false

-- `struct meta_obj` with the object: `slots` gives the pointer that is stored at each offset.
-- A type of -1 is `none`.
pub record Meta : Type 0 where
  pub mark : Mark
  pub size : ℕ
  pub type_def : Option ℕ
  pub slots : ℕ → Pointer

-- `struct meta_obj_ptr_def`: the kind and the offset
pub data Field : Type 0 where
  ptr array : ℕ → Field

-- `struct meta_obj_def`
pub record TypeDef : Type 0 where
  pub size : ℕ
  pub root_list : List Field

-- The type definitions and the type of arrays, the part of `struct gc_ms` that marking reads.
pub record Types : Type 0 where
  pub type_defs : List TypeDef
  pub array_type : ℕ

abbrev pub Heap : Type 0
Heap = ℕ → Option Meta

abbrev pub store : Heap → ℕ → Option Meta → Heap
store h p cell q = if q == p then cell else h q

-- `struct gc_ms`. The heap holds what is allocated; `fresh` is the address that the next block is
-- given. Each list of objects gives their addresses, `root_list` names variables outside.
pub record Gc : Type 0 where
  pub heap : Heap
  pub fresh : ℕ
  pub active_list : List ℕ
  pub dead_list : List ℕ
  pub perm_list : List ℕ
  pub root_list : List ℕ
  pub types : Types
  pub cell_size : ℕ
  pub size_granularity : ℕ
  pub protect_count : ℕ
  pub allocations : ℕ
  pub current_mark : Mark

-- `gc->type_defs[gc->array_type].size`; `gc_create` registers that type before any other
abbrev pub array_size : Types → ℕ
array_size types = elim (get_elem? types.type_defs types.array_type) [
  | none ↦ 0
  | some definition ↦ definition.size
]
