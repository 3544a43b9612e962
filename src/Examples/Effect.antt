-- ===== src/Examples/Effect.antt =====
-- What the instructions do, at concrete machines.
use insomniac.Base.{◌≡◌, refl, false, some, [], ◌∷◌, arith, if◌then◌else◌}
use insomniac.Vm.State.{Ptr, Object, Vm}
use insomniac.Vm.Run.{done, undefined, ◌>>◌}
use insomniac.Vm.Triple.{Returns, Aborts}
use insomniac.Vm.Text.{c_string, strncpy}
use insomniac.Vm.Exception.{throw}
use insomniac.Vm.Ops.Literal.{hash_get, hash_set}
use insomniac.Vm.Ops.Literal.{op_lit_64bit}
use insomniac.Vm.Ops.Vector.{op_index_set, op_index_ref}
use insomniac.Vm.Ops.Jump.{op_tail_call_in, op_call, op_ret}
use insomniac.Vm.Ops.Location.{op_bind, op_read, op_set}
use insomniac.Vm.Effect.{with_stack}
use insomniac.Vm.Effect.Exception.{Unhandled, throw-Unhandled}
use insomniac.Vm.Effect.Raise.{CanRaise}
use insomniac.Vm.Effect.Location.{op_read-op_bind, op_read-Binds, op_read-Unbound, op_read-op_set}
use insomniac.Vm.Effect.Binding.{IsSymbol, Binds, Unbound, assigned}
use insomniac.Vm.Effect.Jump.{op_tail_call_in_lem, op_ret-op_call}
use insomniac.Vm.Effect.Symbol.{Named, make_both, make_symbol_unique}
use insomniac.Vm.Effect.Vector.{written, op_index_ref-op_index_set, op_index_past_end}
use insomniac.Vm.Effect.Math.{allocated}
use insomniac.Vm.Effect.Literal.{moved, op_lit_64bit-int_64}
use insomniac.Vm.Table.{hash_get-hash_set}
use insomniac.Vm.Text.{same_text}
use insomniac.Examples.Machine.{
  x_name, y_name, outer_env, inner_env, outer_table, machine, bare, machine-IsWellFormed,
  bare-IsWellFormed, x-IsSymbol, inner-IsFrame, outer-IsFrame, operand,
}

bare-CanRaise : CanRaise "m" bare
unfolding strncpy
bare-CanRaise = record {
  text = 109 ∷ [];
  env = inner_env;
  copied = refl;
  small = omega arith;
  current = refl;
}

unhandled : Unhandled bare 31
unhandled =
    Unhandled.outer inner_env (omega arith) refl refl
      (Unhandled.outer (record outer_env { handler = false }) (omega arith) refl refl Unhandled.end)

throw-Unhandled_example : Aborts (throw "m" (10 ∷ []) bare)
throw-Unhandled_example =
    throw-Unhandled bare bare-IsWellFormed "m" (10 ∷ []) bare-CanRaise unhandled

x-Binds : Binds machine x_name 30 41 outer_table 10 31
unfolding hash_get
x-Binds = Binds.outer inner_env [] inner-IsFrame refl (Binds.here outer_env outer-IsFrame refl refl)

op_read-Binds_example :
    op_read (with_stack (14 ∷ []) machine) ≡ done tt (with_stack (10 ∷ []) machine)
op_read-Binds_example =
    op_read-Binds 14 x_name [] machine (machine-IsWellFormed []) x-IsSymbol x-Binds

op_read-op_set_example :
    (op_set (with_stack (14 ∷ 11 ∷ []) machine)
      ≡ done tt (with_stack [] (assigned 41 x_name 11 outer_table machine)))
    × (op_read (with_stack (14 ∷ []) (assigned 41 x_name 11 outer_table machine))
        ≡ done tt (with_stack (11 ∷ []) (assigned 41 x_name 11 outer_table machine)))
op_read-op_set_example =
    op_read-op_set 14 11 x_name [] machine (machine-IsWellFormed []) x-IsSymbol (omega arith)
      x-Binds

op_read-op_bind_example :
    (op_bind (with_stack (14 ∷ 11 ∷ []) machine)
      ≡ done tt (with_stack [] (assigned 40 x_name 11 [] machine)))
    × (op_read (with_stack (14 ∷ []) (assigned 40 x_name 11 [] machine))
        ≡ done tt (with_stack (11 ∷ []) (assigned 40 x_name 11 [] machine)))
op_read-op_bind_example =
    op_read-op_bind 14 11 x_name [] machine (machine-IsWellFormed []) x-IsSymbol (omega arith)
      inner_env [] inner-IsFrame

op_tail_call_in_example :
    Returns
      (λ _ vm.
        (vm.stack ≡ 11 ∷ 10 ∷ [])
        × (vm.envs vm.env
            ≡ some (record outer_env {
              bindings = 51;
              handler = false;
              handler_addr = 0;
              parent = 50;
            }))
        × (vm.envs 50 ≡ some outer_env)
        × (vm.tables 51 ≡ some []))
      (op_tail_call_in (with_stack (18 ∷ 10 ∷ 11 ∷ []) machine))
op_tail_call_in_example =
    op_tail_call_in_lem 18 10 11 30 outer_env [] machine (omega arith) (omega arith) (omega arith)
      refl refl (omega arith)

op_ret-op_call_example :
    Returns
      (λ _ vm. (vm.stack ≡ 10 ∷ []) × (vm.envs vm.env ≡ some (record inner_env { ip = 8 })))
      ((op_call >> op_ret) (with_stack (10 ∷ []) machine))
op_ret-op_call_example =
    op_ret-op_call inner_env machine 3 (0 ∷ 0 ∷ 0 ∷ 0 ∷ []) refl (omega arith) operand (10 ∷ [])
      (omega arith) (omega arith)

x-Named :
    (p : Ptr) (bytes : Ptr)
    → machine.objects p ≡ some (Object.string 1 bytes)
    → machine.blocks bytes ≡ some (120 ∷ 0 ∷ [])
    → Named machine p x_name
unfolding c_string
x-Named p bytes string memory = record {
  size = 1;
  bytes = bytes;
  block = 120 ∷ 0 ∷ [];
  string = string;
  memory = memory;
  text = refl;
}

make_symbol_unique_example : (q : Ptr) × (vm : Vm) × (make_both 16 17 machine ≡ done (q, q) vm)
make_symbol_unique_example =
    make_symbol_unique machine 16 17 x_name [] (x-Named 16 20 refl refl) (x-Named 17 21 refl refl)
      refl

op_index_ref-op_index_set_example :
    (op_index_set (with_stack (12 ∷ 10 ∷ 11 ∷ []) machine)
      ≡ done tt (with_stack [] (written 12 (10 ∷ 11 ∷ []) 1 10 machine)))
    × (op_index_ref (with_stack (12 ∷ 11 ∷ []) (written 12 (10 ∷ 11 ∷ []) 1 10 machine))
        ≡ done tt (with_stack (10 ∷ []) (written 12 (10 ∷ 11 ∷ []) 1 10 machine)))
op_index_ref-op_index_set_example =
    op_index_ref-op_index_set 12 10 11 1 (10 ∷ 11 ∷ []) [] machine (omega arith) (omega arith)
      (omega arith) (omega arith) refl refl (omega arith) (omega arith)

op_index_past_end_example :
    (op_index_set (with_stack (12 ∷ 10 ∷ 13 ∷ []) machine) ≡ undefined)
    × (op_index_ref (with_stack (12 ∷ 13 ∷ []) machine) ≡ undefined)
op_index_past_end_example =
    op_index_past_end 12 10 13 2 (10 ∷ 11 ∷ []) [] machine (omega arith) (omega arith) (omega arith)
      (omega arith) refl refl (omega arith) refl

y-IsSymbol : IsSymbol machine 19 y_name
unfolding c_string
y-IsSymbol = record {
  present = omega arith;
  size = 1;
  bytes = 22;
  block = 121 ∷ 0 ∷ [];
  symbol = refl;
  memory = refl;
  text = refl;
}

y-Unbound : Unbound machine y_name 31
unfolding hash_get same_text
y-Unbound =
    Unbound.outer inner_env [] inner-IsFrame refl
      (Unbound.outer outer_env outer_table outer-IsFrame refl Unbound.end)

op_read-Unbound_example :
    op_read (with_stack (19 ∷ []) machine)
    ≡ throw "Attempt to read undefined symbol" (19 ∷ []) (with_stack [] machine)
op_read-Unbound_example =
    op_read-Unbound 19 y_name [] machine (machine-IsWellFormed []) y-IsSymbol y-Unbound

op_lit_64bit-int_64_example :
    op_lit_64bit (with_stack [] machine)
    ≡ done tt (with_stack (50 ∷ []) (allocated (Object.fixnum 3) (moved 8 inner_env machine)))
op_lit_64bit-int_64_example =
    op_lit_64bit-int_64 inner_env machine refl 3 (0 ∷ 0 ∷ 0 ∷ 0 ∷ []) [] (omega arith) operand

hash_get-hash_set_example :
    hash_get x_name (hash_set y_name 5 outer_table)
    ≡ (if same_text x_name y_name then some 5 else hash_get x_name outer_table)
hash_get-hash_set_example = hash_get-hash_set x_name y_name 5 outer_table
