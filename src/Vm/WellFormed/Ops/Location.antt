-- ===== src/Vm/WellFormed/Ops/Location.antt =====
-- The invariant under the instructions on variables, whose searches end.
use insomniac.Base.{
  ℕ, zero, suc, ◌<◌, ◌%◌, ◌^◌, ◌==◌, List, Option, none, some, inl, inr, arith, Bool-cases,
}
use insomniac.Vm.State.{Ptr, null}
use insomniac.Vm.Run.{M, modify}
use insomniac.Vm.Triple.{Keeps, Triple-bind, Keeps-pure, Keeps-modify}
use insomniac.Vm.WellFormed.{IsWellFormed}
use insomniac.Vm.WellFormed.Heap.{load_table-Keeps}
use insomniac.Vm.WellFormed.Frame.{load_env-Linked}
use insomniac.Vm.WellFormed.Raise.{machine_rules, search-Keeps}
use insomniac.Vm.WellFormed.Ops.Basic.{load_integer-Keeps}
use insomniac.Vm.WellFormed.Ops.Code.{code_rules}
use insomniac.Vm.Ops.Location.{
  bind_in, op_bind, found_or, find_binding, search_binding, push_found, op_read, set_found, op_set,
  op_set_exit,
}

bind_in-Keeps : (p : Ptr) (name : List ℕ) (v : Ptr) → Keeps IsWellFormed (bind_in p name v)
unfolding bind_in
bind_in-Keeps p name v = search machine_rules depth 9

pub op_bind-Keeps : Keeps IsWellFormed op_bind
unfolding op_bind
op_bind-Keeps = search (code_rules, bind_in-Keeps) depth 14

found_or-Keeps :
    (p : Ptr) (o : Option Ptr) (m : M (Option (Ptr × Ptr)))
    → Keeps IsWellFormed m
    → Keeps IsWellFormed (found_or p o m)
unfolding found_or
found_or-Keeps p (some v) m k = Keeps-pure _
found_or-Keeps p none m k = k

-- The search for a variable ends within any number of rounds above the address it starts from.
pub find_binding-Keeps :
    (n : ℕ) (name : List ℕ) (p : Ptr) → p < n → Keeps IsWellFormed (find_binding n name p)
unfolding find_binding
find_binding-Keeps zero name p h = absurd (omega arith)
find_binding-Keeps (suc n) name p h = elim (Bool-cases (p == null)) [
  | inl e ↦ rw e (Keeps-pure none)
  | inr e ↦ rw e (
      Triple-bind _ _ (load_env-Linked p) λ f.
        Triple-bind _ _ (load_table-Keeps f.bindings) λ table. record {
          at = λ vm (w, below, used).
              (found_or-Keeps p _ _ (find_binding-Keeps n name f.parent (omega arith))).at vm w;
        })
]

search_binding-Keeps : (name : List ℕ) → Keeps IsWellFormed (search_binding name)
unfolding search_binding
search_binding-Keeps name =
    search-Keeps (λ env bound. find_binding (suc bound) name env)
      λ env bound h. find_binding-Keeps (suc bound) name env h

push_found-Keeps : (key : Ptr) (o : Option (Ptr × Ptr)) → Keeps IsWellFormed (push_found key o)
unfolding push_found
push_found-Keeps key none = search machine_rules
push_found-Keeps key (some (env, v)) = search machine_rules

pub op_read-Keeps : Keeps IsWellFormed op_read
unfolding op_read
op_read-Keeps = search (code_rules, search_binding-Keeps, push_found-Keeps) depth 14

set_found-Keeps :
    (key : Ptr) (name : List ℕ) (v : Ptr) (o : Option (Ptr × Ptr))
    → Keeps IsWellFormed (set_found key name v o)
unfolding set_found
set_found-Keeps key name v none = search machine_rules
set_found-Keeps key name v (some (env, old)) = bind_in-Keeps env name v

pub op_set-Keeps : Keeps IsWellFormed op_set
unfolding op_set
op_set-Keeps = search (code_rules, search_binding-Keeps, set_found-Keeps) depth 14

set_status-Keeps :
    (status : ℕ) → Keeps IsWellFormed (modify (λ vm. record vm { exit_status = status % 2 ^ 32 }))
set_status-Keeps status =
    Keeps-modify _ λ vm w. record { counted = w.counted; current = w.current; chained = w.chained }

pub op_set_exit-Keeps : Keeps IsWellFormed op_set_exit
unfolding op_set_exit
op_set_exit-Keeps = search (code_rules, load_integer-Keeps, set_status-Keeps) depth 14
