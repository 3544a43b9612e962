-- ===== src/Examples/Run.antt =====
-- The loop and the table of instructions, at concrete machines.
use insomniac.Base.{refl, [], ◌∷◌, arith}
use insomniac.Vm.State.{Env, Vm, update}
use insomniac.Vm.Run.{pure, ◌>>=◌}
use insomniac.Vm.Opcode.{Op}
use insomniac.Vm.Triple.{Keeps, Keeps-pure}
use insomniac.Vm.Eval.{External, instruction, execute, step}
use insomniac.Vm.Ops.Literal.{op_lit_empty}
use insomniac.Vm.WellFormed.{IsWellFormed}
use insomniac.Vm.WellFormed.Eval.{instruction-Keeps}
use insomniac.Vm.Loop.{
  Rounds, IsHalted, Completed, Rounds-eval_loop, eval_loop-Rounds, Rounds-IsWellFormed,
}
use insomniac.Examples.Machine.{inner_env, machine}

-- instructions outside the machine that do nothing
abbrev quiet : External
quiet op = pure tt

quiet-Keeps : (o : Op) → Keeps IsWellFormed (quiet o)
quiet-Keeps o = Keeps-pure tt

-- one operation, which pushes the empty list
abbrev short_env : Env
short_env = record inner_env { code_ref = 1 ∷ []; length = 1 }

abbrev before : Vm
before = record machine { envs = update machine.envs 31 short_env }

abbrev after : Vm
after = record machine {
  stack = 1 ∷ [];
  depth = 1;
  envs = update before.envs 31 (record short_env { ip = 1 });
}

one-Rounds : Rounds quiet 1 before after
unfolding step op_lit_empty ◌>>=◌
one-Rounds = Rounds.round (short_env, refl, refl) refl Rounds.rest

after-IsHalted : IsHalted after
after-IsHalted = (record short_env { ip = 1 }, refl, refl)

before-IsWellFormed : IsWellFormed before
before-IsWellFormed = record {
  counted = refl;
  current = omega arith;
  chained = λ p e h. ground arith;
}

instruction-Keeps_example : Keeps IsWellFormed (execute (instruction quiet Op.call))
instruction-Keeps_example = instruction-Keeps quiet quiet-Keeps Op.call

eval_loop-Rounds_example : Completed quiet 2 0 before after
eval_loop-Rounds_example =
    eval_loop-Rounds quiet 2 0 before after
      (Rounds-eval_loop quiet 2 (omega arith) one-Rounds after-IsHalted)

Rounds-IsWellFormed_example : IsWellFormed after
Rounds-IsWellFormed_example = Rounds-IsWellFormed quiet quiet-Keeps one-Rounds before-IsWellFormed
