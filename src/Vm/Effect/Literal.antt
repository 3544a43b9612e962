-- ===== src/Vm/Effect/Literal.antt =====
-- vm_literals.c: numbers, characters and symbols.
use insomniac.Base.{ℕ, ◌≡◌, ◌<◌, List, ◌∷◌, ◌++◌, arith, some, ◌+◌, ◌%◌, ◌^◌, drop}
use insomniac.Vm.State.{Ptr, Vm, Env, Object, update}
use insomniac.Vm.Run.{done, ◌>>=◌}
use insomniac.Vm.Word.{word}
use insomniac.Vm.Effect.{with_stack}
use insomniac.Vm.Effect.Math.{allocated}
use insomniac.Vm.Code.Bytes.{read_bytes-int_64, read_bytes-lit_char}
use insomniac.Asm.Emit.{int_64, byte}
use insomniac.Vm.Ops.Literal.{op_lit_64bit, op_lit_char}

-- the machine whose environment `p` has moved `n` bytes on
abbrev pub moved : ℕ → Env → Vm → Vm
moved n e vm = record vm { envs = update vm.envs vm.env (record e { ip = (e.ip + n) % word }) }

module _ (e : Env) (vm : Vm) (current : vm.envs vm.env ≡ some e) where
  -- The number that the assembler's macro writes behind the operation is the number that the
  -- instruction pushes, as a new object, and the position moves on by its eight bytes.
  pub op_lit_64bit-int_64 :
      (n : ℕ) (rest : List ℕ) (s : List Ptr)
      → n < word
      → drop e.ip e.code_ref ≡ int_64 n ++ rest
      → op_lit_64bit (with_stack s vm)
        ≡ done tt (with_stack (vm.next ∷ s) (allocated (Object.fixnum n) (moved 8 e vm)))
  unfolding op_lit_64bit ◌>>=◌
  op_lit_64bit-int_64 n rest s small code = ground (arith, read_bytes-int_64 n rest small)

  -- The character that the assembler's macro writes behind the operation in four bytes is the
  -- one that the instruction pushes, whatever the byte behind them, which the loop reads too.
  pub op_lit_char-byte :
      (n b : ℕ) (rest : List ℕ) (s : List Ptr)
      → n < 2 ^ 32
      → b < 256
      → drop e.ip e.code_ref ≡ byte n 0 ∷ byte n 1 ∷ byte n 2 ∷ byte n 3 ∷ b ∷ rest
      → op_lit_char (with_stack s vm)
        ≡ done tt (with_stack (vm.next ∷ s) (allocated (Object.char n) (moved 4 e vm)))
  unfolding op_lit_char ◌>>=◌
  op_lit_char-byte n b rest s small low code =
      ground (arith, read_bytes-lit_char n b rest small low)
