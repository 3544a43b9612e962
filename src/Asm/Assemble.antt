-- ===== src/Asm/Assemble.antt =====
-- asm_core.c: debug directives, the loop over the tokens, and the targets of the jumps.
use insomniac.Base.{
  ℕ, zero, suc, ◌+◌, ◌-◌, ◌%◌, ◌^◌, Bool, ◌&&◌, ◌||◌, Option, none, some, List, [], ◌∷◌, length,
  set, if◌then◌else◌, ◌==◌, ltb,
}
use insomniac.Asm.Emit.{int_64}
use insomniac.Asm.Core.{
  lit_fixnum_token, lit_char_token, lit_string_token, lit_symbol_token, call_token, proc_token,
  jmp_token, jnf_token, continue_token, op_max_ins, label_token, string_start_token,
  string_end_token, symbol_start_token, directive_file, Lexeme, Scanner, JumpType, DebugState,
  Assembly, strtoq, emit, asm_lit_fixnum, asm_lit_char, expect, asm_lit_string, asm_label, asm_jump,
}
use insomniac.Gc.State.{Result, done, aborted, undefined, unfinished, ◌>>=◌}
use insomniac.Vm.Ops.Literal.{hash_get}
use insomniac.Vm.State.{Bindings}
use insomniac.Vm.Text.{same_text}
use insomniac.Vm.Word.{word}

unfoldable pub is_current : List ℕ → ℕ → ℕ → DebugState → Bool
unfolding same_text
is_current file line column tail =
    same_text tail.file file && (tail.line == line && tail.column == column)

-- A new state goes to the end of the chain, unless the last one says the same.
unfoldable pub push_debug : List DebugState → List ℕ → ℕ → ℕ → ℕ → List DebugState
unfolding is_current
push_debug [] file line column addr =
    (record { file = file; line = line; column = column; start_addr = addr }) ∷ []
push_debug (tail ∷ []) file line column addr =
    if is_current file line column tail
    then tail ∷ []
    else tail ∷ (record { file = file; line = line; column = column; start_addr = addr }) ∷ []
push_debug (s ∷ t ∷ more) file line column addr = s ∷ push_debug (t ∷ more) file line column addr

-- The number is returned as an `int` and comes back into a `vm_int`.
unfoldable pub get_debug_num : Scanner → Result (ℕ × Scanner)
unfolding ◌>>=◌ expect strtoq
get_debug_num scanner = expect lit_fixnum_token scanner >>= λ (text, rest).
    let low = strtoq text % 2 ^ 32 in
    done ((if ltb low (2 ^ 31) then low else low + (word - 2 ^ 32)), rest)

-- the lines behind the name
unfoldable pub add_debug_place :
    List ℕ → Scanner → List DebugState → ℕ → Result (List DebugState × Scanner)
unfolding ◌>>=◌ get_debug_num push_debug
add_debug_place file scanner debug addr = get_debug_num scanner >>= λ (line, more).
    get_debug_num more >>= λ (column, rest). done (push_debug debug file line column addr, rest)

-- The text of a name has its quote at its end when the name is copied, since the text of a token
-- stands in the scanner's buffer; the copy leaves the quote out. An empty name is a null pointer.
unfoldable pub add_debug_named : Scanner → List DebugState → ℕ → Result (List DebugState × Scanner)
unfolding ◌>>=◌ expect add_debug_place
add_debug_named [] debug addr = aborted
add_debug_named (l ∷ rest) debug addr =
    if l.token == lit_string_token
    then (expect string_end_token rest >>= λ (_, more). add_debug_place l.text more debug addr)
    else if l.token == string_end_token
    then undefined
    else aborted

unfoldable pub add_debug_file : Scanner → List DebugState → ℕ → Result (List DebugState × Scanner)
unfolding ◌>>=◌ expect add_debug_named
add_debug_file scanner debug addr =
    expect string_start_token scanner >>= λ (_, body). add_debug_named body debug addr

-- the case of DIRECTIVE_FILE
unfoldable pub asm_directive :
    Option (List DebugState) → Scanner → Assembly → Result (Assembly × Scanner)
unfolding ◌>>=◌ add_debug_file
asm_directive none rest st = done (st, rest)
asm_directive (some debug) rest st = add_debug_file rest debug (length st.buf) >>= λ (states, more).
    done (record st { debug = some states }, more)

unfoldable pub is_jump : ℕ → Bool
is_jump token =
    token == jmp_token
    || (token == jnf_token
        || (token == call_token || (token == proc_token || token == continue_token)))

-- one round of the loop
unfoldable pub asm_token : Lexeme → Scanner → Assembly → Result (Assembly × Scanner)
unfolding ◌>>=◌ emit asm_lit_fixnum asm_lit_char asm_lit_string asm_label asm_jump asm_directive
    is_jump
asm_token l rest st =
    if l.token == lit_fixnum_token
    then done (asm_lit_fixnum l.text st, rest)
    else if l.token == lit_char_token
    then done (asm_lit_char l.text st, rest)
    else if l.token == string_start_token
    then asm_lit_string rest (emit (lit_string_token ∷ []) st)
    else if l.token == symbol_start_token
    then asm_lit_string rest (emit (lit_symbol_token ∷ []) st)
    else if is_jump l.token
    then asm_jump rest (emit (l.token ∷ []) st)
    else if l.token == label_token
    then done (asm_label l.text st, rest)
    else if l.token == directive_file
    then asm_directive st.debug rest st
    else if ltb l.token op_max_ins
    then done (emit (l.token ∷ []) st, rest)
    else done (st, rest)

-- the loop; `fuel` bounds the rounds
unfoldable pub asm_tokens : ℕ → Scanner → Assembly → Result Assembly
unfolding ◌>>=◌ asm_token
asm_tokens fuel [] st = done st
asm_tokens zero (l ∷ rest) st = unfinished
asm_tokens (suc fuel) (l ∷ rest) st =
    asm_token l rest st >>= λ (next, more). asm_tokens fuel more next

unfoldable pub write_bytes : List ℕ → ℕ → List ℕ → List ℕ
write_bytes code_ref addr [] = code_ref
write_bytes code_ref addr (b ∷ bs) = write_bytes (set code_ref addr b) (suc addr) bs

-- the distance from behind the operand to the label
unfoldable pub jump_target : ℕ → ℕ → ℕ
jump_target label_addr addr = (label_addr + (word - (addr + 8) % word)) % word

unfoldable pub rewrite_jumps : List ℕ → List JumpType → Bindings → Result (List ℕ)
unfolding write_bytes jump_target hash_get
rewrite_jumps code_ref [] labels = done code_ref
rewrite_jumps code_ref (jump ∷ jump_list) labels = elim (hash_get jump.label labels) [
  | none ↦ aborted
  | some label_addr ↦
      rewrite_jumps (write_bytes code_ref jump.addr (int_64 (jump_target label_addr jump.addr)))
        jump_list labels
]

-- the variables at the start; the debug states are those of a caller that asks for them
unfoldable pub start : Bool → Assembly
start debug = record {
  buf = [];
  labels = [];
  jump_list = [];
  debug = if debug then some [] else none;
}

-- `asm_string` behind its loop
unfoldable pub link : Assembly → Result (List ℕ × Option (List DebugState))
unfolding ◌>>=◌ rewrite_jumps
link st = rewrite_jumps st.buf st.jump_list st.labels >>= λ code_ref. done (code_ref, st.debug)

unfoldable pub asm_string : Bool → Scanner → Result (List ℕ × Option (List DebugState))
unfolding ◌>>=◌ start asm_tokens link
asm_string debug scanner = asm_tokens (length scanner) scanner (start debug) >>= link
