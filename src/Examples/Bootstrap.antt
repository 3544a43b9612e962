-- ===== src/Examples/Bootstrap.antt =====
-- A program with a branch, a conjunction, a clause and a procedure.
use insomniac.Base.{ℕ, ◌≤◌, ◌<◌, ◌≡◌, some, List, arith}
use insomniac.Vm.Text.{codes}
use insomniac.Bootstrap.Stream.{
  Position, Node, literal, symbol, cond_node, and_node, two_arg, if_node, lambda, load, end, put,
  Stream, stream,
}
use insomniac.Bootstrap.Output.{Line, label_name}
use insomniac.Bootstrap.Emit.{compiler_code_gen}
use insomniac.Bootstrap.Labels.{defined, between, AllLines, compiler_code_gen_lem}
use insomniac.Bootstrap.Shape.{IsShaped, IsProgram, AreShaped, IsCond, AreClauses}
use insomniac.Bootstrap.Names.{index_of, index_of-label_name}

abbrev here : Position
here = record { file = codes "main.scm"; line = 1; column = 2 }

abbrev alone : Node → Stream
alone node = stream (put here node end)

-- (lambda (x) x)
abbrev procedure : Node
procedure =
    lambda (stream (put here (symbol (codes "s\"x\"")) (put here (literal (codes "()")) end)))
      (alone (load (alone (symbol (codes "s\"x\"")))))

-- (and 1 2)
abbrev conjunction : Node
conjunction =
    and_node (stream (put here (literal (codes "1")) (put here (literal (codes "2")) end)))

-- (cond (#f (lambda (x) x)))
abbrev clauses : Node
clauses =
    cond_node (alone (cond_node (alone (two_arg (alone (literal (codes "#f"))) (alone procedure)))))

-- (if #t (and 1 2) (cond (#f (lambda (x) x))))
abbrev program : Stream
program =
    alone
      (if_node (alone (literal (codes "#t"))) (alone (two_arg (alone conjunction) (alone clauses))))

program-IsProgram : IsProgram program
unfolding IsShaped IsProgram AreShaped IsCond AreClauses
program-IsProgram = ground arith

compiler_code_gen_example :
    (lines : List Line) × (n' : ℕ) × (compiler_code_gen program 5 ≡ some (lines, n'))
    × (5 ≤ n')
    × ((k : ℕ) → defined k lines ≡ between 5 n' k)
    × AllLines (λ k. (5 ≤ k) × (k < n')) lines
compiler_code_gen_example = compiler_code_gen_lem program 5 program-IsProgram

index_of-label_name_example : index_of (label_name 42) ≡ 42
index_of-label_name_example = index_of-label_name 42
