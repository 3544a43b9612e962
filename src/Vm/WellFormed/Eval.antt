-- ===== src/Vm/WellFormed/Eval.antt =====
-- The invariant under the table of instructions, the loop of vm_eval.c and vm_core.c.
use insomniac.Base.{ℕ, ◌≡◌, refl, true, none, some, [], arith, get_elem?, inl, inr, Option-cases}
use insomniac.Vm.State.{null, Env, Vm}
use insomniac.Vm.Opcode.{Op, op_codes}
use insomniac.Vm.Run.{◌>>=◌}
use insomniac.Vm.Triple.{Returns, Keeps, Keeps-bind, Keeps-need}
use insomniac.Vm.Eval.{External, instruction, lookup_op, execute, step}
use insomniac.Vm.Ops.Math.{
  op_add, op_sub, op_mul, op_div, op_mod, op_numeric_equal, op_numeric_lt, op_numeric_gt,
}
use insomniac.Vm.Exception.{blank_env}
use insomniac.Vm.Core.{blank_vm, vm_create, vm_reset}
use insomniac.Vm.WellFormed.{IsWellFormed}
use insomniac.Vm.WellFormed.Raise.{handle_exception-Keeps}
use insomniac.Vm.WellFormed.Ops.Basic.{
  op_swap-Keeps, op_rot-Keeps, op_dup_ref-Keeps, op_depth-Keeps, op_drop-Keeps, op_cons-Keeps,
  op_car-Keeps, op_cdr-Keeps, op_set_car-Keeps, op_set_cdr-Keeps, op_eq-Keeps, op_not-Keeps,
  type_op-Keeps, numeric_op-Keeps, numeric_logic-Keeps, op_make_byte_vector-Keeps,
  op_make_vector-Keeps, op_make_record-Keeps, op_vector_length-Keeps, op_index_set-Keeps,
  op_index_ref-Keeps, op_string_byte_vector-Keeps, op_byte_vector_string-Keeps,
}
use insomniac.Vm.WellFormed.Ops.Code.{
  current_env-Keeps, advance-Keeps, op_lit_64bit-Keeps, op_lit_char-Keeps, op_lit_empty-Keeps,
  op_lit_true-Keeps, op_lit_false-Keeps, op_lit_string-Keeps, op_lit_symbol-Keeps,
  op_make_symbol-Keeps,
}
use insomniac.Vm.WellFormed.Ops.Jump.{
  op_jnf-Keeps, op_jmp-Keeps, op_call-Keeps, op_adopt-Keeps, op_proc-Keeps, op_jin-Keeps,
  op_ret-Keeps, op_call_in-Keeps, op_tail_call_in-Keeps, op_continue-Keeps, op_restore-Keeps,
}
use insomniac.Vm.WellFormed.Ops.Location.{
  op_bind-Keeps, op_read-Keeps, op_set-Keeps, op_set_exit-Keeps,
}

module _ (io : External) (keep : (o : Op) → Keeps IsWellFormed (io o)) where
  undefined-Keeps : Keeps IsWellFormed (execute none)
  unfolding execute
  undefined-Keeps = handle_exception-Keeps true _ _

  -- If the instructions on files, libraries and the collector keep the invariant of the
  -- machine, so does what the loop runs for every operation code, on each branch of it: from a
  -- well-formed machine it ends in a well-formed one, in `assert(0)` or in behaviour that C
  -- leaves open, and its searches through the environments come to an end.
  pub instruction-Keeps : (o : Op) → Keeps IsWellFormed (execute (instruction io o))
  unfolding instruction execute op_add op_sub op_mul op_div op_mod op_numeric_equal op_numeric_lt
      op_numeric_gt
  instruction-Keeps Op.nop = undefined-Keeps
  instruction-Keeps Op.lit_empty = op_lit_empty-Keeps
  instruction-Keeps Op.lit_fixnum = op_lit_64bit-Keeps
  instruction-Keeps Op.lit_char = op_lit_char-Keeps
  instruction-Keeps Op.lit_true = op_lit_true-Keeps
  instruction-Keeps Op.lit_false = op_lit_false-Keeps
  instruction-Keeps Op.lit_string = op_lit_string-Keeps
  instruction-Keeps Op.lit_symbol = op_lit_symbol-Keeps
  instruction-Keeps Op.make_symbol = op_make_symbol-Keeps
  instruction-Keeps Op.cons = op_cons-Keeps
  instruction-Keeps Op.car = op_car-Keeps
  instruction-Keeps Op.cdr = op_cdr-Keeps
  instruction-Keeps Op.set_car = op_set_car-Keeps
  instruction-Keeps Op.set_cdr = op_set_cdr-Keeps
  instruction-Keeps Op.make_vector = op_make_vector-Keeps
  instruction-Keeps Op.make_byte_vector = op_make_byte_vector-Keeps
  instruction-Keeps Op.make_record = op_make_record-Keeps
  instruction-Keeps Op.index_set = op_index_set-Keeps
  instruction-Keeps Op.index_ref = op_index_ref-Keeps
  instruction-Keeps Op.vector_length = op_vector_length-Keeps
  instruction-Keeps Op.string_byte_vector = op_string_byte_vector-Keeps
  instruction-Keeps Op.byte_vector_string = op_byte_vector_string-Keeps
  instruction-Keeps Op.call = op_call-Keeps
  instruction-Keeps Op.adopt = op_adopt-Keeps
  instruction-Keeps Op.proc = op_proc-Keeps
  instruction-Keeps Op.jmp = op_jmp-Keeps
  instruction-Keeps Op.jnf = op_jnf-Keeps
  instruction-Keeps Op.ret = op_ret-Keeps
  instruction-Keeps Op.jin = op_jin-Keeps
  instruction-Keeps Op.call_in = op_call_in-Keeps
  instruction-Keeps Op.tail_call_in = op_tail_call_in-Keeps
  instruction-Keeps Op.continue = op_continue-Keeps
  instruction-Keeps Op.restore = op_restore-Keeps
  instruction-Keeps Op.bind = op_bind-Keeps
  instruction-Keeps Op.set = op_set-Keeps
  instruction-Keeps Op.read = op_read-Keeps
  instruction-Keeps Op.swap = op_swap-Keeps
  instruction-Keeps Op.rot = op_rot-Keeps
  instruction-Keeps Op.dup_ref = op_dup_ref-Keeps
  instruction-Keeps Op.drop = op_drop-Keeps
  instruction-Keeps Op.depth = op_depth-Keeps
  instruction-Keeps Op.add = numeric_op-Keeps _
  instruction-Keeps Op.sub = numeric_op-Keeps _
  instruction-Keeps Op.mul = numeric_op-Keeps _
  instruction-Keeps Op.div = numeric_op-Keeps _
  instruction-Keeps Op.mod_ = numeric_op-Keeps _
  instruction-Keeps Op.numeric_equal = numeric_logic-Keeps _
  instruction-Keeps Op.numeric_lt = numeric_logic-Keeps _
  instruction-Keeps Op.numeric_gt = numeric_logic-Keeps _
  instruction-Keeps Op.not = op_not-Keeps
  instruction-Keeps Op.eq = op_eq-Keeps
  instruction-Keeps Op.output = keep Op.output
  instruction-Keeps Op.fd_read = keep Op.fd_read
  instruction-Keeps Op.fd_write = keep Op.fd_write
  instruction-Keeps Op.open_ = keep Op.open_
  instruction-Keeps Op.close = keep Op.close
  instruction-Keeps Op.slurp = keep Op.slurp
  instruction-Keeps Op.asm = keep Op.asm
  instruction-Keeps Op.import = keep Op.import
  instruction-Keeps Op.call_ext = keep Op.call_ext
  instruction-Keeps Op.is_fixnum = type_op-Keeps _
  instruction-Keeps Op.is_bool = type_op-Keeps _
  instruction-Keeps Op.is_char = type_op-Keeps _
  instruction-Keeps Op.is_string = type_op-Keeps _
  instruction-Keeps Op.is_symbol = type_op-Keeps _
  instruction-Keeps Op.is_vector = type_op-Keeps _
  instruction-Keeps Op.is_byte_vector = type_op-Keeps _
  instruction-Keeps Op.is_record = type_op-Keeps _
  instruction-Keeps Op.is_pair = type_op-Keeps _
  instruction-Keeps Op.is_empty = type_op-Keeps _
  instruction-Keeps Op.is_closure = type_op-Keeps _
  instruction-Keeps Op.is_library = undefined-Keeps
  instruction-Keeps Op.is_self = type_op-Keeps _
  instruction-Keeps Op.set_exit = op_set_exit-Keeps
  instruction-Keeps Op.gc_stats = keep Op.gc_stats

  lookup_op-Keeps : (byte : ℕ) → Keeps IsWellFormed (execute (lookup_op io byte))
  unfolding lookup_op
  lookup_op-Keeps byte = elim (Option-cases (get_elem? op_codes byte)) [
    | inl e ↦ rw e undefined-Keeps
    | inr (o, e) ↦ rw e (instruction-Keeps o)
  ]

  -- one round of the loop
  pub step-Keeps : Keeps IsWellFormed (step io)
  unfolding step
  step-Keeps = Keeps-bind _ _ current_env-Keeps λ e.
      Keeps-bind _ _ (Keeps-need _)
        λ op_code. Keeps-bind _ _ (advance-Keeps 1) λ _. lookup_op-Keeps op_code

-- an empty stack, and a current environment that has no parent and binds nothing
abbrev pub IsReady : Vm → Type 0
IsReady vm =
    IsWellFormed vm
    × (vm.stack ≡ [])
    × (vm.exit_status ≡ 0)
    × ((e : Env) × (vm.envs vm.env ≡ some e) × (e.parent ≡ null) × (vm.tables e.bindings ≡ some []))

-- `vm_create` returns a well-formed machine with an empty stack, the exit status 0 and a
-- current environment that has no parent and binds nothing.
pub vm_create-IsReady : Returns (λ _. IsReady) (vm_create blank_vm)
unfolding vm_create ◌>>=◌
vm_create-IsReady = (
  record { counted = refl; current = omega arith; chained = λ p e h. ground arith },
  refl,
  refl,
  (_, refl, refl, refl),
)

-- `vm_reset` of a well-formed machine with the exit status 0 returns a well-formed machine with
-- an empty stack, the exit status 0 and a current environment that has no parent and binds
-- nothing.
pub vm_reset-IsReady :
    (vm : Vm) → IsWellFormed vm → vm.exit_status ≡ 0 → Returns (λ _. IsReady) (vm_reset vm)
unfolding vm_reset ◌>>=◌
vm_reset-IsReady vm w zero_status = (
  record {
    counted = refl;
    current = omega arith;
    chained = λ p e h. ground (arith, w.chained p e, w.current);
  },
  refl,
  zero_status,
  (record blank_env { bindings = vm.next }, ground arith, refl, ground arith),
)
