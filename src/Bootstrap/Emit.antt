-- ===== src/Bootstrap/Emit.antt =====
-- bootstrap_emit.c: the assembler text of a stream.
use insomniac.Base.{ℕ, Bool, true, false, not, ◌&&◌, Option, none, some, ◌++◌, if◌then◌else◌}
use insomniac.Bootstrap.Stream.{
  Text, Node, literal, symbol, string, operation, quoted, load, asm, asm_stream, record_type,
  cond_node, and_node, or_node, bind, store, let_star, two_arg, if_node, math, lambda, call, Nodes,
  end, put, Stream, null_stream, stream,
}
use insomniac.Bootstrap.Output.{
  Emission, silent, misread, ◌>>◌, gen_label, emit_op, emit_comment, emit_label, emit_jump_label,
  emit_debug, emit_literal, emit_string,
}
use insomniac.Bootstrap.Frames.{
  op, comment, emit_text, pushes, emit_unless, emit_quoted, emit_record_type, frame_lambda,
  frame_let_star, frame_if, frame_clause, frame_operand,
}

-- The whole of the emission, one function for each loop over a stream. `last` says that the node is
-- the last one of its stream. The two streams of a branch, of a clause and of an operation come in a
-- node of two arguments, as the grammar builds it. `emit_debug` stands where a node is taken from
-- its stream. A stream that is read without a test for null is `misread` where it is null.
unfoldable mutual
  unfolding ◌>>◌ emit_op emit_comment emit_debug emit_literal emit_string emit_label emit_jump_label
      gen_label silent misread pushes emit_unless emit_text emit_quoted emit_record_type
      frame_lambda frame_let_star frame_if frame_clause frame_operand

  pub emit_node : Node → Bool → Bool → Emission
  emit_node (literal str) last allow = emit_literal str
  emit_node (symbol str) last allow = emit_literal str
  emit_node (operation str) last allow = emit_literal str
  emit_node (string str) last allow = emit_string str
  emit_node (quoted tree) last allow = emit_quoted tree
  emit_node (record_type def) last allow = emit_record_type def
  emit_node (asm tree) last allow = emit_asm tree
  emit_node (load tree) last allow = emit_stream tree false >> op "@"
  emit_node (cond_node clauses) last allow = gen_label (λ done_label.
      comment "--Cond Start--"
      >> emit_cond clauses allow done_label
      >> comment "--Cond Fall-Through--"
      >> op "()"
      >> emit_label done_label
      >> comment "--Cond End--")
  emit_node (if_node test (stream (put at (two_arg a b) rest))) last allow =
      frame_if (emit_stream test false) (emit_stream a allow) (emit_stream b allow)
  emit_node (if_node test branches) last allow = misread
  emit_node (and_node tree) last allow = gen_label (λ done_label.
      comment "--Bool Operator Start--"
      >> emit_bool tree true done_label
      >> emit_label done_label
      >> comment "--Bool Operator End--")
  emit_node (or_node tree) last allow = gen_label (λ done_label.
      comment "--Bool Operator Start--"
      >> emit_bool tree false done_label
      >> emit_label done_label
      >> comment "--Bool Operator End--")
  emit_node (math (stream (put at operator rest)) (stream (put at' (two_arg a b) rest'))) last
        allow =
      emit_stream a false >> emit_stream b false >> emit_text operator
  emit_node (math operator operands) last allow = misread
  emit_node (lambda formals body) last allow = frame_lambda formals (emit_stream body true)
  emit_node (call function args) last allow =
      comment "--Call Start--"
      >> op "()"
      >> emit_args args
      >> emit_stream function false
      >> (if allow && last then op "tail_call_in" else op "call_in")
      >> comment "--Call End--"
  emit_node (bind a b) last allow = emit_stream a false >> emit_stream b false >> op "bind"
  emit_node (store a b) last allow = emit_stream a false >> emit_stream b false >> op "!"
  emit_node (let_star bindings body) last allow =
      frame_let_star allow (emit_stream bindings false) (emit_stream body allow)
  emit_node (asm_stream tree) last allow = silent
  emit_node (two_arg a b) last allow = silent

  pub emit_stream : Stream → Bool → Emission
  emit_stream null_stream allow = op "()"
  emit_stream (stream tree) allow = emit_nodes tree false allow

  -- The loop of `emit_stream`; `pushed` is what the node before has returned. Only the last node
  -- leaves a value.
  pub emit_nodes : Nodes → Bool → Bool → Emission
  emit_nodes end pushed allow = emit_unless pushed (op "()")
  emit_nodes (put at head end) pushed allow =
      emit_debug at >> emit_node head true allow >> emit_unless (pushes head) (op "()")
  emit_nodes (put at head (put at' next rest)) pushed allow =
      emit_debug at
      >> emit_node head false false
      >> emit_unless (not (pushes head)) (op "drop")
      >> emit_nodes (put at' next rest) (pushes head) allow

  pub emit_asm : Stream → Emission
  emit_asm null_stream = misread
  emit_asm (stream tree) = comment "--Raw ASM Start--" >> emit_raw tree >> comment "--Raw ASM End--"

  -- the loop of `emit_asm`
  pub emit_raw : Nodes → Emission
  emit_raw end = silent
  emit_raw (put at (asm_stream tree) rest) =
      comment "----Escape ASM Start----"
      >> emit_stream tree false
      >> comment "----Escape ASM End----"
      >> emit_raw rest
  emit_raw (put at head rest) = emit_text head >> emit_raw rest

  pub emit_cond : Stream → Bool → ℕ → Emission
  emit_cond null_stream allow done_label = misread
  emit_cond (stream clauses) allow done_label = emit_clauses clauses allow done_label

  -- the loop of `emit_cond`
  pub emit_clauses : Nodes → Bool → ℕ → Emission
  emit_clauses end allow done_label = silent
  emit_clauses (put at (cond_node (stream (put at' (two_arg test body) more))) rest) allow
        done_label =
      frame_clause done_label (emit_stream test false) (emit_stream body allow)
      >> emit_clauses rest allow done_label
  emit_clauses (put at head rest) allow done_label = misread

  -- a null stream has no operands
  pub emit_bool : Stream → Bool → ℕ → Emission
  emit_bool null_stream and_or done_label = if and_or then op "#t" else op "#f"
  emit_bool (stream tree) and_or done_label = emit_operands tree and_or done_label

  -- the loop of `emit_bool`, from its first operand on
  pub emit_operands : Nodes → Bool → ℕ → Emission
  emit_operands end and_or done_label = if and_or then op "#t" else op "#f"
  emit_operands (put at head end) and_or done_label =
      emit_debug at >> emit_node head true false >> emit_unless (pushes head) (op "()")
  emit_operands (put at head (put at' next rest)) and_or done_label =
      emit_debug at
      >> emit_node head false false
      >> emit_unless (pushes head) (op "()")
      >> frame_operand and_or done_label
      >> emit_operands (put at' next rest) and_or done_label

  -- the arguments in `emit_call`
  pub emit_args : Stream → Emission
  emit_args null_stream = misread
  emit_args (stream args) = emit_arguments args

  -- the loop over the arguments
  pub emit_arguments : Nodes → Emission
  emit_arguments end = silent
  emit_arguments (put at head rest) =
      emit_debug at
      >> emit_node head false false
      >> emit_unless (pushes head) (op "()")
      >> op "cons"
      >> emit_arguments rest

-- the assembler text of the program
unfoldable pub compiler_code_gen : Stream → Emission
unfolding emit_stream
compiler_code_gen program = emit_stream program false

-- bootstrap_preamble.c: the text between the two files, which are arguments; `none` is a file that
-- does not load, where the program exits.
unfoldable pub emit_bootstrap : Option Text → Option Text → Text → Option Text
emit_bootstrap none postamble out = none
emit_bootstrap (some preamble) none out = none
emit_bootstrap (some preamble) (some postamble) out = some (preamble ++ (out ++ postamble))
