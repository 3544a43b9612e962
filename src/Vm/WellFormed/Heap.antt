-- ===== src/Vm/WellFormed/Heap.antt =====
-- The invariant under reads, writes and allocations.
use insomniac.Base.{ℕ, List, arith}
use insomniac.Vm.State.{Ptr, CellType, Object, Bindings, Vm}
use insomniac.Vm.Triple.{
  Triple, Keeps, Keeps-modify, Keeps-bind, Keeps-gets, Keeps-pure, keeps_rules,
}
use insomniac.Vm.Heap.{
  deref, load_block, load_env, load_table, store_object, store_block, store_table, fresh, allocate,
  allocate_block, allocate_table, reserve, vm_alloc, cons, vm_make_string, vm_make_byte_vector,
  cells, vm_make_vector, vm_make_record, is_type,
}
use insomniac.Vm.WellFormed.{IsWellFormed}

-- a read keeps whatever holds
module _ {P : Vm → Type 0} (p : Ptr) where
  pub deref-Keeps : Keeps P (deref p)
  unfolding deref
  deref-Keeps = search keeps_rules

  pub load_block-Keeps : Keeps P (load_block p)
  unfolding load_block
  load_block-Keeps = search keeps_rules

  pub load_table-Keeps : Keeps P (load_table p)
  unfolding load_table
  load_table-Keeps = search keeps_rules

  pub load_env-Keeps : Keeps P (load_env p)
  unfolding load_env
  load_env-Keeps = search keeps_rules

module _ (p : Ptr) where
  pub store_object-Keeps : (o : Object) → Keeps IsWellFormed (store_object p o)
  unfolding store_object
  store_object-Keeps o =
      Keeps-modify _
        λ vm w. record { counted = w.counted; current = w.current; chained = w.chained }

  pub store_block-Keeps : (b : List ℕ) → Keeps IsWellFormed (store_block p b)
  unfolding store_block
  store_block-Keeps b =
      Keeps-modify _
        λ vm w. record { counted = w.counted; current = w.current; chained = w.chained }

  pub store_table-Keeps : (t : Bindings) → Keeps IsWellFormed (store_table p t)
  unfolding store_table
  store_table-Keeps t =
      Keeps-modify _
        λ vm w. record { counted = w.counted; current = w.current; chained = w.chained }

pub fresh-Keeps : Keeps IsWellFormed fresh
unfolding fresh
fresh-Keeps = Keeps-bind _ _ (Keeps-gets _) λ p.
    Keeps-bind _ _
      (Keeps-modify _ λ vm w. record {
        counted = w.counted;
        current = omega arith;
        chained = λ q e h. omega (arith, w.chained q e h);
      })
      λ _. Keeps-pure p

pub ruleset memory_rules = (
  keeps_rules, deref-Keeps, load_block-Keeps, load_table-Keeps, load_env-Keeps, store_object-Keeps,
  store_block-Keeps, store_table-Keeps, fresh-Keeps,
)

pub allocate-Keeps : (o : Object) → Keeps IsWellFormed (allocate o)
unfolding allocate
allocate-Keeps o = search memory_rules

pub allocate_block-Keeps : (b : List ℕ) → Keeps IsWellFormed (allocate_block b)
unfolding allocate_block
allocate_block-Keeps b = search memory_rules

pub allocate_table-Keeps : (t : Bindings) → Keeps IsWellFormed (allocate_table t)
unfolding allocate_table
allocate_table-Keeps t = search memory_rules

pub reserve-Keeps : (size : ℕ) → Keeps IsWellFormed (reserve size)
unfolding reserve
reserve-Keeps size = search memory_rules

pub vm_alloc-Keeps : (o : Object) → Keeps IsWellFormed (vm_alloc o)
unfolding vm_alloc
vm_alloc-Keeps Object.empty = search (memory_rules, allocate-Keeps)
vm_alloc-Keeps o = allocate-Keeps o

pub ruleset alloc_rules = (
  memory_rules, allocate-Keeps, allocate_block-Keeps, allocate_table-Keeps, reserve-Keeps,
  vm_alloc-Keeps,
)

pub cons-Keeps : (car cdr : Ptr) → Keeps IsWellFormed (cons car cdr)
unfolding cons
cons-Keeps car cdr = search alloc_rules

pub vm_make_string-Keeps : (buf : List ℕ) (n : ℕ) → Keeps IsWellFormed (vm_make_string buf n)
unfolding vm_make_string
vm_make_string-Keeps buf n = search alloc_rules depth 9

pub vm_make_byte_vector-Keeps : (n : ℕ) → Keeps IsWellFormed (vm_make_byte_vector n)
unfolding vm_make_byte_vector
vm_make_byte_vector-Keeps n = search alloc_rules

pub cells-Keeps : (n : ℕ) → Keeps IsWellFormed (cells n)
unfolding cells
cells-Keeps n = search alloc_rules

pub vm_make_vector-Keeps : (n : ℕ) → Keeps IsWellFormed (vm_make_vector n)
unfolding vm_make_vector
vm_make_vector-Keeps n = search (alloc_rules, cells-Keeps)

pub vm_make_record-Keeps : (n : ℕ) → Keeps IsWellFormed (vm_make_record n)
unfolding vm_make_record
vm_make_record-Keeps n = search (alloc_rules, cells-Keeps)

pub is_type-Keeps : (p : Ptr) (t : CellType) → Keeps IsWellFormed (is_type p t)
unfolding is_type
is_type-Keeps p t = search memory_rules

pub ruleset heap_rules = (
  alloc_rules, cons-Keeps, vm_make_string-Keeps, vm_make_byte_vector-Keeps, vm_make_vector-Keeps,
  vm_make_record-Keeps, is_type-Keeps,
)
