-- ===== src/Vm/Code/Bytes.antt =====
-- `parse_int` and the loop of `op_lit_char` against the macros of emit.h.
use insomniac.Base.{ℕ, ◌≡◌, ◌<◌, ◌^◌, List, ◌∷◌, ◌++◌, some, arith, ap}
use insomniac.Asm.Emit.{byte, int_64}
use insomniac.Vm.Ops.Literal.{read_bytes}
use insomniac.Vm.Word.{word}

pub read_bytes-int_64 :
    (n : ℕ) (rest : List ℕ) → n < word → read_bytes word (int_64 n ++ rest) 8 0 ≡ some n
unfolding read_bytes
read_bytes-int_64 n rest h = ap some (omega arith)

pub read_bytes-lit_char :
    (n b : ℕ) (rest : List ℕ)
    → n < 2 ^ 32
    → b < 256
    → read_bytes (2 ^ 32) (byte n 0 ∷ byte n 1 ∷ byte n 2 ∷ byte n 3 ∷ b ∷ rest) 5 0 ≡ some n
unfolding read_bytes
read_bytes-lit_char n b rest h hb = ap some (omega arith)
