-- ===== src/Bootstrap/Output.antt =====
-- The lines that the compiler writes (bootstrap_emit_formatting.c and the first functions of
-- bootstrap_emit.c), and the parts of which the emission is built.
use insomniac.Base.{
  ℕ, zero, suc, ◌+◌, ◌/◌, ◌%◌, Option, none, some, List, [], ◌∷◌, ◌++◌, if◌then◌else◌, ltb,
}
use insomniac.Vm.Text.{codes}
use insomniac.Bootstrap.Stream.{Text, Position}

-- the instructions that `emit_jump_label` knows
pub data Jump : Type 0 where
  to_call to_proc to_jmp to_jnf : Jump

-- A line: an instruction, a quoted string, a label, a jump to a label, a comment or a position.
pub data Line : Type 0 where
  op_line string_line comment_line : Text → Line
  label_line : ℕ → Line
  jump_line : Jump → ℕ → Line
  debug_line : Position → Line

-- the digits of a number; `fuel` is at least their count
unfoldable pub digits : ℕ → ℕ → Text
digits zero n = []
digits (suc fuel) n =
    let rest = digits fuel (n / 10) in
    if ltb n 10 then (48 + n) ∷ [] else rest ++ ((48 + n % 10) ∷ [])

-- %i and %li
unfoldable pub decimal : ℕ → Text
unfolding digits
decimal n = digits (suc n) n

-- the name that `gen_label` makes
unfoldable pub label_name : ℕ → Text
unfolding decimal
label_name index = codes "_label_" ++ decimal index

unfoldable pub jump_name : Jump → Text
jump_name to_call = codes "call"
jump_name to_proc = codes "proc"
jump_name to_jmp = codes "jmp"
jump_name to_jnf = codes "jnf"

unfoldable pub newline : Text
newline = 10 ∷ []

unfoldable pub indent : Text
indent = codes "        "

-- the bytes of a line
unfoldable pub print : Line → Text
unfolding label_name jump_name newline indent decimal
print (op_line str) = indent ++ (str ++ newline)
print (string_line str) = indent ++ (codes "\"" ++ (str ++ (codes "\"" ++ newline)))
print (comment_line str) = codes ";; " ++ (str ++ newline)
print (label_line label) = label_name label ++ (codes ":" ++ newline)
print (jump_line type label) =
    indent ++ (jump_name type ++ (codes " " ++ (label_name label ++ newline)))
print (debug_line at) =
    codes ".file \""
    ++ (at.file
        ++ (codes "\""
            ++ (codes " " ++ (decimal at.line ++ (codes " " ++ (decimal at.column ++ newline))))))

unfoldable pub print_lines : List Line → Text
unfolding print
print_lines [] = []
print_lines (line ∷ lines) = print line ++ print_lines lines

-- What a function writes at the end of the buffer, and `label_index` after it, from `label_index`
-- before it. `none` is a read through a null pointer, or of a union at another member than
-- the one written.
abbrev pub Emission : Type 0
Emission = ℕ → Option (List Line × ℕ)

unfoldable pub silent : Emission
silent n = some ([], n)

unfoldable pub misread : Emission
misread n = none

unfoldable pub line : Line → Emission
line l n = some (l ∷ [], n)

unfoldable pub after_lines : List Line → Option (List Line × ℕ) → Option (List Line × ℕ)
after_lines first none = none
after_lines first (some (second, n)) = some (first ++ second, n)

unfoldable pub and_then : Option (List Line × ℕ) → Emission → Option (List Line × ℕ)
unfolding after_lines
and_then none second = none
and_then (some (first, n)) second = after_lines first (second n)

infixr 5 ◌>>◌
-- one after the other
unfoldable pub ◌>>◌ : Emission → Emission → Emission
unfolding and_then
◌>>◌ first second n = and_then (first n) second

-- a new label for the rest
unfoldable pub gen_label : (ℕ → Emission) → Emission
gen_label rest n = rest n (suc n)

unfoldable pub emit_op : Text → Emission
unfolding line
emit_op str = line (op_line str)

unfoldable pub emit_comment : Text → Emission
unfolding line
emit_comment str = line (comment_line str)

unfoldable pub emit_label : ℕ → Emission
unfolding line
emit_label label = line (label_line label)

unfoldable pub emit_jump_label : Jump → ℕ → Emission
unfolding line
emit_jump_label type label = line (jump_line type label)

unfoldable pub emit_debug : Position → Emission
unfolding line
emit_debug at = line (debug_line at)

unfoldable pub emit_literal : Text → Emission
unfolding emit_op
emit_literal str = emit_op str

unfoldable pub emit_string : Text → Emission
unfolding line
emit_string str = line (string_line str)
