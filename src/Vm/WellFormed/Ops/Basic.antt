-- ===== src/Vm/WellFormed/Ops/Basic.antt =====
-- The invariant under the instructions that leave the environments alone.
use insomniac.Base.{ℕ, Bool, true, false, Option}
use insomniac.Vm.State.{Ptr, Object}
use insomniac.Vm.Triple.{Keeps, Keeps-pure, Keeps-need, Keeps-fault}
use insomniac.Vm.WellFormed.{IsWellFormed}
use insomniac.Vm.WellFormed.Raise.{machine_rules}
use insomniac.Vm.Ops.Stack.{op_swap, op_rot, op_dup_ref, op_depth, op_drop}
use insomniac.Vm.Ops.Pair.{load_pair, op_cons, op_car, op_cdr, can_set, op_set_car, op_set_cdr}
use insomniac.Vm.Ops.Logic.{push_bool, same_string, equivalent, op_eq, op_not, type_op}
use insomniac.Vm.Ops.Math.{load_integer, both_numbers, numeric_op, numeric_logic}
use insomniac.Vm.Ops.Vector.{
  op_make_byte_vector, op_make_vector, op_make_record, op_vector_length, set_cell, set_byte,
  op_index_set, get_cell, get_byte, op_index_ref, op_string_byte_vector, op_byte_vector_string,
}

pub op_swap-Keeps : Keeps IsWellFormed op_swap
unfolding op_swap
op_swap-Keeps = search machine_rules depth 12

pub op_rot-Keeps : Keeps IsWellFormed op_rot
unfolding op_rot
op_rot-Keeps = search machine_rules depth 14

pub op_dup_ref-Keeps : Keeps IsWellFormed op_dup_ref
unfolding op_dup_ref
op_dup_ref-Keeps = search machine_rules depth 12

pub op_depth-Keeps : Keeps IsWellFormed op_depth
unfolding op_depth
op_depth-Keeps = search machine_rules depth 12

pub op_drop-Keeps : Keeps IsWellFormed op_drop
unfolding op_drop
op_drop-Keeps = search machine_rules depth 12

pub load_pair-Keeps : (p : Ptr) → Keeps IsWellFormed (load_pair p)
unfolding load_pair
load_pair-Keeps p = search machine_rules

pub can_set-Keeps : (obj pair : Ptr) → Keeps IsWellFormed (can_set obj pair)
unfolding can_set
can_set-Keeps obj pair = search machine_rules

pub op_cons-Keeps : Keeps IsWellFormed op_cons
unfolding op_cons
op_cons-Keeps = search machine_rules depth 12

ruleset pair_rules = (machine_rules, load_pair-Keeps, can_set-Keeps)

pub op_car-Keeps : Keeps IsWellFormed op_car
unfolding op_car
op_car-Keeps = search pair_rules depth 12

pub op_cdr-Keeps : Keeps IsWellFormed op_cdr
unfolding op_cdr
op_cdr-Keeps = search pair_rules depth 12

pub op_set_car-Keeps : Keeps IsWellFormed op_set_car
unfolding op_set_car
op_set_car-Keeps = search pair_rules depth 14

pub op_set_cdr-Keeps : Keeps IsWellFormed op_set_cdr
unfolding op_set_cdr
op_set_cdr-Keeps = search pair_rules depth 14

pub push_bool-Keeps : (b : Bool) → Keeps IsWellFormed (push_bool b)
unfolding push_bool
push_bool-Keeps true = search machine_rules
push_bool-Keeps false = search machine_rules

pub same_string-Keeps : (p : Ptr) (o : Object) → Keeps IsWellFormed (same_string p o)
unfolding same_string
same_string-Keeps p o = search machine_rules depth 9

pub equivalent-Keeps : (p q : Ptr) (o d : Object) → Keeps IsWellFormed (equivalent p q o d)
unfolding equivalent
equivalent-Keeps p q (Object.fixnum n) d = Keeps-need _
equivalent-Keeps p q (Object.bool b) d = Keeps-need _
equivalent-Keeps p q (Object.char c) d = Keeps-need _
equivalent-Keeps p q (Object.string n b) d = same_string-Keeps b d
equivalent-Keeps p q o d = Keeps-pure _

pub ruleset logic_rules = (machine_rules, push_bool-Keeps, equivalent-Keeps)

pub op_eq-Keeps : Keeps IsWellFormed op_eq
unfolding op_eq
op_eq-Keeps = search logic_rules depth 14

pub op_not-Keeps : Keeps IsWellFormed op_not
unfolding op_not
op_not-Keeps = search logic_rules depth 12

pub type_op-Keeps : (test : Object → Bool) → Keeps IsWellFormed (type_op test)
unfolding type_op
type_op-Keeps test = search logic_rules depth 12

pub load_integer-Keeps : (p : Ptr) → Keeps IsWellFormed (load_integer p)
unfolding load_integer
load_integer-Keeps p = search machine_rules

pub both_numbers-Keeps : (p q : Ptr) → Keeps IsWellFormed (both_numbers p q)
unfolding both_numbers
both_numbers-Keeps p q = search machine_rules

pub ruleset number_rules = (logic_rules, load_integer-Keeps, both_numbers-Keeps)

pub numeric_op-Keeps : (op : ℕ → ℕ → Option ℕ) → Keeps IsWellFormed (numeric_op op)
unfolding numeric_op
numeric_op-Keeps op = search number_rules depth 16

pub numeric_logic-Keeps : (op : ℕ → ℕ → Bool) → Keeps IsWellFormed (numeric_logic op)
unfolding numeric_logic
numeric_logic-Keeps op = search number_rules depth 16

pub op_make_byte_vector-Keeps : Keeps IsWellFormed op_make_byte_vector
unfolding op_make_byte_vector
op_make_byte_vector-Keeps = search number_rules depth 14

pub op_make_vector-Keeps : Keeps IsWellFormed op_make_vector
unfolding op_make_vector
op_make_vector-Keeps = search number_rules depth 14

pub op_make_record-Keeps : Keeps IsWellFormed op_make_record
unfolding op_make_record
op_make_record-Keeps = search number_rules depth 14

pub op_vector_length-Keeps : Keeps IsWellFormed op_vector_length
unfolding op_vector_length
op_vector_length-Keeps = search number_rules depth 14

set_cell-Keeps : (v : Ptr) (o : Object) (i : ℕ) (p : Ptr) → Keeps IsWellFormed (set_cell v o i p)
unfolding set_cell
set_cell-Keeps v (Object.vector n es) i p = search machine_rules
set_cell-Keeps v (Object.record_type n es) i p = search machine_rules
set_cell-Keeps v o i p = Keeps-fault

set_byte-Keeps : (o : Object) (i v : ℕ) → Keeps IsWellFormed (set_byte o i v)
unfolding set_byte
set_byte-Keeps o i v = search machine_rules depth 9

ruleset cell_rules = (number_rules, set_cell-Keeps, set_byte-Keeps)

pub op_index_set-Keeps : Keeps IsWellFormed op_index_set
unfolding op_index_set
op_index_set-Keeps = search cell_rules depth 20

get_cell-Keeps : (o : Object) (i : ℕ) → Keeps IsWellFormed (get_cell o i)
unfolding get_cell
get_cell-Keeps o i = search machine_rules

get_byte-Keeps : (o : Object) (i : ℕ) → Keeps IsWellFormed (get_byte o i)
unfolding get_byte
get_byte-Keeps o i = search machine_rules depth 9

pub op_index_ref-Keeps : Keeps IsWellFormed op_index_ref
unfolding op_index_ref
op_index_ref-Keeps = search (cell_rules, get_cell-Keeps, get_byte-Keeps) depth 20

pub op_string_byte_vector-Keeps : Keeps IsWellFormed op_string_byte_vector
unfolding op_string_byte_vector
op_string_byte_vector-Keeps = search machine_rules depth 14

pub op_byte_vector_string-Keeps : Keeps IsWellFormed op_byte_vector_string
unfolding op_byte_vector_string
op_byte_vector_string-Keeps = search machine_rules depth 14
