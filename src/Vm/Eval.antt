-- ===== src/Vm/Eval.antt =====
-- The instruction table of vm_ops.c (`setup_instructions`) and the loop of vm_eval.c.
use insomniac.Base.{ℕ, zero, suc, Option, none, some, List, [], if◌then◌else◌, get_elem?, ltb}
use insomniac.Vm.State.{CellType}
use insomniac.Vm.Opcode.{Op, op_codes}
use insomniac.Vm.Run.{M, diverge, gets, need, ◌>>=◌, ◌>>◌}
use insomniac.Vm.Heap.{load_env, store_env}
use insomniac.Vm.Exception.{throw_fatal}
use insomniac.Vm.Ops.Stack.{op_swap, op_rot, op_dup_ref, op_depth, op_drop}
use insomniac.Vm.Ops.Pair.{op_cons, op_car, op_cdr, op_set_car, op_set_cdr}
use insomniac.Vm.Ops.Logic.{op_eq, op_not, type_op, type_test, is_self}
use insomniac.Vm.Ops.Math.{
  op_add, op_sub, op_mul, op_div, op_mod, op_numeric_equal, op_numeric_lt, op_numeric_gt,
}
use insomniac.Vm.Ops.Literal.{
  op_lit_64bit, op_lit_char, op_lit_empty, op_lit_true, op_lit_false, op_lit_string, op_lit_symbol,
  op_make_symbol, current_env, advance,
}
use insomniac.Vm.Ops.Vector.{
  op_make_byte_vector, op_make_vector, op_make_record, op_vector_length, op_index_set, op_index_ref,
  op_string_byte_vector, op_byte_vector_string,
}
use insomniac.Vm.Ops.Jump.{
  op_jnf, op_jmp, op_call, op_adopt, op_proc, op_jin, op_ret, op_call_in, op_tail_call_in,
  op_continue, op_restore,
}
use insomniac.Vm.Ops.Location.{op_bind, op_read, op_set, op_set_exit}

-- The instructions that work on files, libraries and the collector are given by the environment.
abbrev pub External : Type 0
External = Op → M (Unit {0})

-- `vm->ops`: `none` where the table holds a null pointer
unfoldable pub instruction : External → Op → Option (M (Unit {0}))
instruction io Op.nop = none
instruction io Op.lit_empty = some op_lit_empty
instruction io Op.lit_fixnum = some op_lit_64bit
instruction io Op.lit_char = some op_lit_char
instruction io Op.lit_true = some op_lit_true
instruction io Op.lit_false = some op_lit_false
instruction io Op.lit_string = some op_lit_string
instruction io Op.lit_symbol = some op_lit_symbol
instruction io Op.make_symbol = some op_make_symbol
instruction io Op.cons = some op_cons
instruction io Op.car = some op_car
instruction io Op.cdr = some op_cdr
instruction io Op.set_car = some op_set_car
instruction io Op.set_cdr = some op_set_cdr
instruction io Op.make_vector = some op_make_vector
instruction io Op.make_byte_vector = some op_make_byte_vector
instruction io Op.make_record = some op_make_record
instruction io Op.index_set = some op_index_set
instruction io Op.index_ref = some op_index_ref
instruction io Op.vector_length = some op_vector_length
instruction io Op.string_byte_vector = some op_string_byte_vector
instruction io Op.byte_vector_string = some op_byte_vector_string
instruction io Op.call = some op_call
instruction io Op.adopt = some op_adopt
instruction io Op.proc = some op_proc
instruction io Op.jmp = some op_jmp
instruction io Op.jnf = some op_jnf
instruction io Op.ret = some op_ret
instruction io Op.jin = some op_jin
instruction io Op.call_in = some op_call_in
instruction io Op.tail_call_in = some op_tail_call_in
instruction io Op.continue = some op_continue
instruction io Op.restore = some op_restore
instruction io Op.bind = some op_bind
instruction io Op.set = some op_set
instruction io Op.read = some op_read
instruction io Op.swap = some op_swap
instruction io Op.rot = some op_rot
instruction io Op.dup_ref = some op_dup_ref
instruction io Op.drop = some op_drop
instruction io Op.depth = some op_depth
instruction io Op.add = some op_add
instruction io Op.sub = some op_sub
instruction io Op.mul = some op_mul
instruction io Op.div = some op_div
instruction io Op.mod_ = some op_mod
instruction io Op.numeric_equal = some op_numeric_equal
instruction io Op.numeric_lt = some op_numeric_lt
instruction io Op.numeric_gt = some op_numeric_gt
instruction io Op.not = some op_not
instruction io Op.eq = some op_eq
instruction io Op.output = some (io Op.output)
instruction io Op.fd_read = some (io Op.fd_read)
instruction io Op.fd_write = some (io Op.fd_write)
instruction io Op.open_ = some (io Op.open_)
instruction io Op.close = some (io Op.close)
instruction io Op.slurp = some (io Op.slurp)
instruction io Op.asm = some (io Op.asm)
instruction io Op.import = some (io Op.import)
instruction io Op.call_ext = some (io Op.call_ext)
instruction io Op.is_fixnum = some (type_op (type_test CellType.fixnum))
instruction io Op.is_bool = some (type_op (type_test CellType.bool))
instruction io Op.is_char = some (type_op (type_test CellType.char))
instruction io Op.is_string = some (type_op (type_test CellType.string))
instruction io Op.is_symbol = some (type_op (type_test CellType.symbol))
instruction io Op.is_vector = some (type_op (type_test CellType.vector))
instruction io Op.is_byte_vector = some (type_op (type_test CellType.byte_vector))
instruction io Op.is_record = some (type_op (type_test CellType.record_type))
instruction io Op.is_pair = some (type_op (type_test CellType.pair))
instruction io Op.is_empty = some (type_op (type_test CellType.empty))
instruction io Op.is_closure = some (type_op (type_test CellType.closure))
instruction io Op.is_library = none
instruction io Op.is_self = some (type_op is_self)
instruction io Op.set_exit = some op_set_exit
instruction io Op.gc_stats = some (io Op.gc_stats)

unfoldable pub lookup_op : External → ℕ → Option (M (Unit {0}))
unfolding instruction
lookup_op io byte = of_code (get_elem? op_codes byte)
  where
    of_code : Option Op → Option (M (Unit {0}))
    of_code none = none
    of_code (some op) = instruction io op

unfoldable pub execute : Option (M (Unit {0})) → M (Unit {0})
execute none = throw_fatal "Found Undefined instrution." []
execute (some op_call) = op_call

-- one round of the loop
unfoldable pub step : External → M (Unit {0})
unfolding current_env advance lookup_op execute
step io = do
  e ← current_env
  op_code ← need (get_elem? e.code_ref e.ip)
  advance 1
  execute (lookup_op io op_code)

-- `while (vm->env->ip < vm->env->length)`
unfoldable pub eval_loop : ℕ → External → M ℕ
unfolding step
eval_loop zero io = diverge
eval_loop (suc fuel) io = do
  e ← current_env
  if ltb e.ip e.length then (do step io; eval_loop fuel io) else gets (λ vm. vm.exit_status)

unfoldable pub vm_eval : ℕ → External → ℕ → List ℕ → M ℕ
unfolding eval_loop
vm_eval fuel io length code_ref = do
  p ← gets (λ vm. vm.env)
  e ← load_env p
  store_env p (record e { ip = 0; code_ref = code_ref; length = length })
  eval_loop fuel io
