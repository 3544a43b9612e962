-- ===== src/Asm/Items.antt =====
-- The assembler on a source without errors of syntax, against the places that its items take.
use insomniac.Base.{
  ℕ, ◌+◌, ◌≡◌, Bool, true, not, ◌&&◌, Option, none, some, List, [], ◌∷◌, ◌++◌, length,
  if◌then◌else◌, ◌==◌, ltb,
}
use insomniac.Asm.Core.{
  lit_fixnum_token, lit_char_token, lit_string_token, call_token, proc_token, jmp_token, jnf_token,
  continue_token, op_max_ins, label_token, string_start_token, string_end_token, symbol_start_token,
  Lexeme, Scanner, JumpType,
}
use insomniac.Asm.Assemble.{is_jump}
use insomniac.Vm.Text.{same_text}

pub data JumpOp : Type 0 where
  jmp jnf call proc continue : JumpOp

abbrev pub number : JumpOp → ℕ
number jmp = jmp_token
number jnf = jnf_token
number call = call_token
number proc = proc_token
number continue = continue_token

-- what a source is made of
pub data Item : Type 0 where
  fixnum char string symbol label : List ℕ → Item
  jump : JumpOp → List ℕ → Item
  op : ℕ → Item

abbrev lexeme : ℕ → List ℕ → Lexeme
lexeme token text = record { token = token; text = text }

-- the scanner gives no body for an empty text
abbrev quoted : ℕ → List ℕ → Scanner
quoted first [] = lexeme first [] ∷ lexeme string_end_token [] ∷ []
quoted first (c ∷ cs) =
    lexeme first [] ∷ lexeme lit_string_token (c ∷ cs) ∷ lexeme string_end_token [] ∷ []

abbrev pub tokens : Item → Scanner
tokens (fixnum text) = lexeme lit_fixnum_token text ∷ []
tokens (char text) = lexeme lit_char_token text ∷ []
tokens (string text) = quoted string_start_token text
tokens (symbol text) = quoted symbol_start_token text
tokens (label name) = lexeme label_token name ∷ []
tokens (jump type name) = lexeme (number type) [] ∷ lexeme label_token name ∷ []
tokens (op code) = lexeme code [] ∷ []

abbrev pub scan : List Item → Scanner
scan [] = []
scan (item ∷ items) = tokens item ++ scan items

-- an operation without an operand
abbrev pub is_simple : ℕ → Bool
is_simple code =
    ltb code op_max_ins
    && (not (code == lit_fixnum_token) && (not (code == lit_char_token) && not (is_jump code)))

abbrev pub IsItem : Item → Type 0
IsItem (op code) = is_simple code ≡ true
IsItem item = Unit {0}

-- the bytes that an item takes
abbrev pub width : Item → ℕ
width (fixnum text) = 9
width (char text) = 5
width (string text) = 9 + length text
width (symbol text) = 9 + length text
width (label name) = 0
width (jump type name) = 9
width (op code) = 1

abbrev pub total : List Item → ℕ
total [] = 0
total (item ∷ items) = width item + total items

abbrev pub or_else : Option ℕ → Option ℕ → Option ℕ
or_else (some a) b = some a
or_else none b = b

-- The place of a label, which is its last one, where the first item stands at `at`.
abbrev pub place_of : List ℕ → List Item → ℕ → Option ℕ
place_of name [] at = none
place_of name (label other ∷ items) at =
    or_else (place_of name items at) (if same_text name other then some at else none)
place_of name (item ∷ items) at = place_of name items (at + width item)

-- the operands of the jumps, the last one first, in front of `later`
abbrev pub jumps_onto : List Item → ℕ → List JumpType → List JumpType
jumps_onto [] at before = before
jumps_onto (jump type name ∷ items) at before =
    jumps_onto items (at + 9) ((record { label = name; addr = at + 1 }) ∷ before)
jumps_onto (item ∷ items) at before = jumps_onto items (at + width item) before
