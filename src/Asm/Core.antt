-- ===== src/Asm/Core.antt =====
-- asm_core.c: from the tokens of lexer.l to code.
use insomniac.Base.{
  ℕ, ◌+◌, ◌-◌, ◌*◌, ◌%◌, ◌^◌, min, ◌&&◌, Option, List, [], ◌∷◌, ◌++◌, length, if◌then◌else◌, ◌==◌,
  ltb, leb,
}
use insomniac.Asm.Emit.{byte, int_64}
use insomniac.Gc.State.{Result, done, aborted, ◌>>=◌}
use insomniac.Vm.Opcode.{op_codes}
use insomniac.Vm.Ops.Literal.{hash_set}
use insomniac.Vm.State.{Bindings}
use insomniac.Vm.Text.{same_text, codes}
use insomniac.Vm.Word.{word}

-- numbers of operations (ops.h)
abbrev pub lit_fixnum_token : ℕ
lit_fixnum_token = 2

abbrev pub lit_char_token : ℕ
lit_char_token = 3

abbrev pub lit_string_token : ℕ
lit_string_token = 6

abbrev pub lit_symbol_token : ℕ
lit_symbol_token = 7

abbrev pub call_token : ℕ
call_token = 22

abbrev pub proc_token : ℕ
proc_token = 24

abbrev pub jmp_token : ℕ
jmp_token = 25

abbrev pub jnf_token : ℕ
jnf_token = 26

abbrev pub continue_token : ℕ
continue_token = 31

abbrev pub op_max_ins : ℕ
op_max_ins = length op_codes

-- tokens that are no operations; END_OF_FILE, the number after OP_MAX_INS, is the end of the list
abbrev pub label_token : ℕ
label_token = op_max_ins + 2

abbrev pub string_start_token : ℕ
string_start_token = op_max_ins + 3

abbrev pub string_end_token : ℕ
string_end_token = op_max_ins + 4

abbrev pub symbol_start_token : ℕ
symbol_start_token = op_max_ins + 5

abbrev pub directive_file : ℕ
directive_file = op_max_ins + 6

-- what `yyasmlex` returns, with the text of the match
pub record Lexeme : Type 0 where
  pub token : ℕ
  pub text : List ℕ

-- the calls of `yyasmlex` that are left
abbrev pub Scanner : Type 0
Scanner = List Lexeme

-- The position of a jump's operand. The line of a jump only serves a message.
pub record JumpType : Type 0 where
  pub label : List ℕ
  pub addr : ℕ

-- The names of the files are shared through a table, which changes no name.
pub record DebugState : Type 0 where
  pub file : List ℕ
  pub line : ℕ
  pub column : ℕ
  pub start_addr : ℕ

-- the variables of `asm_string`: the bytes of the buffer, the labels, the jumps, the debug states
pub record Assembly : Type 0 where
  pub buf : List ℕ
  pub labels : Bindings
  pub jump_list : List JumpType
  pub debug : Option (List DebugState)

-- the value of a digit in the bases that `strtoq` knows
unfoldable pub digit : ℕ → ℕ
digit c =
    if leb 48 c && leb c 57
    then c - 48
    else if leb 97 c && leb c 122
    then c - 87
    else if leb 65 c && leb c 90
    then c - 55
    else 36

unfoldable pub digits_in : ℕ → ℕ → List ℕ → ℕ
unfolding digit
digits_in base acc [] = acc
digits_in base acc (c ∷ cs) =
    let more = digits_in base (acc * base + digit c) cs in if ltb (digit c) base then more else acc

-- base 0: by the prefix; the tokens that are read so have decimal digits_in only, so that `0x` is none
unfoldable pub unsigned : List ℕ → ℕ
unfolding digits_in
unsigned [] = 0
unsigned (c ∷ cs) = if c == 48 then digits_in 8 0 cs else digits_in 10 0 (c ∷ cs)

-- `strtoq`, as a 64-bit pattern: a value out of range is the last one in it
unfoldable pub strtoq : List ℕ → ℕ
unfolding unsigned
strtoq [] = 0
strtoq (c ∷ cs) =
    if c == 45
    then (word - min (unsigned cs) (2 ^ 63)) % word
    else if c == 43
    then min (unsigned cs) (2 ^ 63 - 1)
    else min (unsigned (c ∷ cs)) (2 ^ 63 - 1)

unfoldable pub emit : List ℕ → Assembly → Assembly
emit bytes st = record st { buf = st.buf ++ bytes }

unfoldable pub asm_lit_fixnum : List ℕ → Assembly → Assembly
unfolding emit strtoq
asm_lit_fixnum text = emit (lit_fixnum_token ∷ int_64 (strtoq text))

-- A `char` is signed. The number of `strtoul` is at most 2 ^ 64 - 1, of which 32 bits are kept.
unfoldable pub char_value : List ℕ → ℕ
unfolding digits_in
char_value [] = 0
char_value (c ∷ cs) =
    if same_text (c ∷ cs) (codes "newline")
    then 10
    else if same_text (c ∷ cs) (codes "space")
    then 32
    else if same_text (c ∷ cs) (codes "eof")
    then 2 ^ 32 - 1
    else if c == 120 && ltb 1 (length (c ∷ cs))
    then min (digits_in 16 0 cs) (2 ^ 64 - 1) % 2 ^ 32
    else if ltb c 128
    then c
    else c + (2 ^ 32 - 256)

unfoldable pub asm_lit_char : List ℕ → Assembly → Assembly
unfolding emit char_value
asm_lit_char text =
    let c = char_value text in
    emit (lit_char_token ∷ byte c 0 ∷ byte c 1 ∷ byte c 2 ∷ byte c 3 ∷ [])

-- a call of `yyasmlex` and an `assert` of its token
unfoldable pub expect : ℕ → Scanner → Result (List ℕ × Scanner)
expect token [] = aborted
expect token (l ∷ rest) = if l.token == token then done (l.text, rest) else aborted

unfoldable pub emit_lit_string : List ℕ → Assembly → Assembly
unfolding emit
emit_lit_string str = emit (int_64 (length str) ++ str)

unfoldable pub asm_lit_string : Scanner → Assembly → Result (Assembly × Scanner)
unfolding ◌>>=◌ expect emit_lit_string
asm_lit_string [] st = aborted
asm_lit_string (l ∷ rest) st =
    if l.token == lit_string_token
    then (expect string_end_token rest >>= λ (_, more). done (emit_lit_string l.text st, more))
    else if l.token == string_end_token
    then done (emit_lit_string [] st, rest)
    else aborted

unfoldable pub asm_label : List ℕ → Assembly → Assembly
unfolding hash_set
asm_label str st = record st { labels = hash_set str (length st.buf) st.labels }

unfoldable pub asm_jump : Scanner → Assembly → Result (Assembly × Scanner)
unfolding ◌>>=◌ expect emit
asm_jump scanner st = expect label_token scanner >>= λ (label, rest). done (
  emit (int_64 0)
      (record st { jump_list = (record { label = label; addr = length st.buf }) ∷ st.jump_list }),
  rest,
)
