-- ===== src/Examples/Machine.antt =====
-- A machine with a few objects and two environments.
use insomniac.Base.{ℕ, ◌≡◌, refl, true, false, Option, none, List, [], ◌∷◌, ◌++◌, arith, drop}
use insomniac.Vm.State.{Ptr, null, Object, Env, Bindings, Vm, update}
use insomniac.Vm.Text.{c_string}
use insomniac.Vm.WellFormed.{IsWellFormed}
use insomniac.Asm.Emit.{int_64}
use insomniac.Vm.Effect.{with_stack}
use insomniac.Vm.Effect.Binding.{IsSymbol, IsFrame}

-- the symbol `x`
abbrev pub x_name : List ℕ
x_name = 120 ∷ []

abbrev pub y_name : List ℕ
y_name = 121 ∷ []

-- the code of both environments: the operand 3 of a jump, then four operations `nop`
abbrev pub program : List ℕ
program = int_64 3 ++ 0 ∷ 0 ∷ 0 ∷ 0 ∷ []

-- it binds `x` to the number at 10
abbrev pub outer_env : Env
outer_env = record {
  code_ref = program;
  length = 12;
  ip = 0;
  bindings = 41;
  handler = true;
  handler_addr = 5;
  parent = null;
}

abbrev pub inner_env : Env
inner_env = record {
  code_ref = program;
  length = 12;
  ip = 0;
  bindings = 40;
  handler = false;
  handler_addr = 0;
  parent = 30;
}

abbrev pub objects : Ptr → Option Object
objects =
    update
      (update
        (update
          (update
            (update
              (update
                (update
                  (update
                    (update
                      (update
                        (update
                          (update (update (update (λ _. none) 1 Object.empty) 2 (Object.bool true))
                            3 (Object.bool false))
                          10 (Object.fixnum 7))
                        11 (Object.fixnum 1))
                      12 (Object.vector 2 (10 ∷ 11 ∷ [])))
                    13 (Object.fixnum 2))
                  14 (Object.symbol 1 20))
                15 (Object.pair 10 11))
              16 (Object.string 1 20))
            17 (Object.string 1 21))
          18 (Object.closure 30))
        19 (Object.symbol 1 22))
      23 (Object.closure 31)

abbrev pub outer_table : Bindings
outer_table = (x_name, 10) ∷ []

abbrev pub machine : Vm
machine = record {
  stack = [];
  depth = 0;
  empty = 1;
  vm_true = 2;
  vm_false = 3;
  symbol_table = 42;
  env = 31;
  exit_status = 0;
  objects = objects;
  blocks =
      update (update (update (λ _. none) 20 (120 ∷ 0 ∷ [])) 21 (120 ∷ 0 ∷ [])) 22 (121 ∷ 0 ∷ []);
  envs = update (update (λ _. none) 30 outer_env) 31 inner_env;
  tables = update (update (update (λ _. none) 40 []) 41 outer_table) 42 [];
  next = 50;
}

-- the same without a handler
abbrev pub bare : Vm
bare = record machine { envs = update machine.envs 30 (record outer_env { handler = false }) }

pub machine-IsWellFormed : (s : List Ptr) → IsWellFormed (with_stack s machine)
machine-IsWellFormed s = record {
  counted = refl;
  current = omega arith;
  chained = λ p e h. ground arith;
}

pub bare-IsWellFormed : IsWellFormed bare
bare-IsWellFormed = record {
  counted = refl;
  current = omega arith;
  chained = λ p e h. ground arith;
}

pub x-IsSymbol : IsSymbol machine 14 x_name
unfolding c_string
x-IsSymbol = record {
  present = omega arith;
  size = 1;
  bytes = 20;
  block = 120 ∷ 0 ∷ [];
  symbol = refl;
  memory = refl;
  text = refl;
}

pub inner-IsFrame : IsFrame machine 31 inner_env []
inner-IsFrame = record { present = omega arith; env = refl; table = refl }

pub outer-IsFrame : IsFrame machine 30 outer_env outer_table
outer-IsFrame = record { present = omega arith; env = refl; table = refl }

-- the operand of a jump stands at the position of both environments
pub operand : drop 0 program ≡ int_64 3 ++ 0 ∷ 0 ∷ 0 ∷ 0 ∷ []
unfolding drop
operand = refl
