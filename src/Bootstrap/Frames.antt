-- ===== src/Bootstrap/Frames.antt =====
-- bootstrap_emit.c: what stands around the streams that are emitted.
use insomniac.Base.{ℕ, Bool, true, false, if◌then◌else◌}
use Prim.Native.String.{String}
use insomniac.Vm.Text.{codes}
use insomniac.Bootstrap.Stream.{
  Node, literal, symbol, string, operation, quoted, asm_stream, bind, store, two_arg, Nodes, end,
  put, Stream, null_stream, stream,
}
use insomniac.Bootstrap.Output.{
  to_call, to_proc, to_jmp, to_jnf, Emission, silent, misread, ◌>>◌, gen_label, emit_op,
  emit_comment, emit_label, emit_jump_label, emit_literal, emit_string,
}

abbrev pub op : String → Emission
op str = emit_op (codes str)

abbrev pub comment : String → Emission
comment str = emit_comment (codes str)

-- `value.literal`
unfoldable pub emit_text : Node → Emission
unfolding misread emit_literal
emit_text (literal str) = emit_literal str
emit_text (symbol str) = emit_literal str
emit_text (string str) = emit_literal str
emit_text (operation str) = emit_literal str
emit_text _ = misread

unfoldable pub is_literal : Node → Bool
is_literal (literal str) = true
is_literal _ = false

-- What `emit_node` returns: whether the instructions of the node leave a value.
unfoldable pub pushes : Node → Bool
pushes (bind a b) = false
pushes (store a b) = false
pushes (asm_stream a) = false
pushes (two_arg a b) = false
pushes _ = true

unfoldable pub emit_unless : Bool → Emission → Emission
unfolding silent
emit_unless pushed e = if pushed then silent else e

-- The parameters of a lambda, and the end of their list. A list without `()` at its end binds the
-- rest of the arguments to the last parameter.
unfoldable pub emit_formals : Nodes → Emission
unfolding ◌>>◌ emit_op emit_comment emit_text silent is_literal
emit_formals end = comment "----" >> op "drop"
emit_formals (put at node end) =
    if is_literal node
    then comment "----" >> op "drop"
    else comment "----" >> emit_text node >> op "bind" >> comment "----"
emit_formals (put at node (put at' next rest)) =
    let more = emit_formals (put at' next rest) in
    if is_literal node
    then comment "----" >> op "drop"
    else comment "----"
      >> op "dup"
      >> op "car"
      >> emit_text node
      >> op "bind"
      >> (if is_literal next then silent else op "cdr")
      >> more

-- the formals of a lambda, whose stream is read without a test for null
unfoldable pub emit_parameters : Stream → Emission
unfolding misread emit_formals
emit_parameters null_stream = misread
emit_parameters (stream formals) = emit_formals formals

-- The nodes of a quoted object. The first ends a list, the later ones are consed to it.
unfoldable mutual
  unfolding ◌>>◌ emit_op emit_comment emit_string emit_literal silent misread

  pub emit_quoted_node : Node → Emission
  emit_quoted_node (quoted tree) = emit_quoted tree
  emit_quoted_node (literal str) = emit_literal str
  emit_quoted_node (symbol str) = emit_literal str
  emit_quoted_node (string str) = emit_string str
  emit_quoted_node _ = silent

  pub emit_quoted : Stream → Emission
  emit_quoted null_stream = misread
  emit_quoted (stream nodes) =
      comment "--Quoted Start--" >> emit_quoted_nodes nodes false >> comment "--Quoted End--"

  pub emit_quoted_nodes : Nodes → Bool → Emission
  emit_quoted_nodes end is_list = silent
  emit_quoted_nodes (put at head rest) is_list =
      emit_quoted_node head
      >> (if is_list then op "cons" else silent)
      >> emit_quoted_nodes rest true

unfoldable pub emit_record_type : Stream → Emission
unfolding ◌>>◌ emit_comment emit_op gen_label emit_label emit_jump_label emit_quoted
emit_record_type def =
    comment "--Record Start--"
    >> emit_quoted def
    >> op "s\"record-type-factory\""
    >> op "@"
    >> op "call_in"
    >> comment "--Record Binding--"
    >> gen_label (λ loop_label. gen_label (λ done_label.
      emit_label loop_label
      >> op "dup"
      >> op "null?"
      >> emit_jump_label to_jnf done_label
      >> op "dup"
      >> op "car"
      >> op "dup"
      >> op "cdr"
      >> op "swap"
      >> op "car"
      >> op "bind"
      >> op "cdr"
      >> emit_jump_label to_jmp loop_label
      >> emit_label done_label
      >> comment "--Record End--"))

-- the end of `emit_lambda` and `emit_let_star` around the code that they frame
unfoldable pub frame_lambda : Stream → Emission → Emission
unfolding ◌>>◌ emit_comment emit_op gen_label emit_label emit_jump_label emit_parameters
frame_lambda formals body = gen_label (λ proc_label. gen_label (λ skip_label.
    emit_jump_label to_jmp skip_label
    >> emit_label proc_label
    >> op "swap"
    >> comment "-- Formals --"
    >> emit_parameters formals
    >> comment "-- Body --"
    >> body
    >> op "swap ret"
    >> emit_label skip_label
    >> emit_jump_label to_proc proc_label))

unfoldable pub frame_let_star : Bool → Emission → Emission → Emission
unfolding ◌>>◌ emit_comment emit_op gen_label emit_label emit_jump_label silent
frame_let_star allow_tail_call bindings body = gen_label (λ body_label. gen_label (λ next_label.
    comment "-- Let* --"
    >> (if allow_tail_call
        then op "()" >> emit_jump_label to_proc body_label >> op "tail_call_in"
        else emit_jump_label to_call body_label >> emit_jump_label to_jmp next_label)
    >> emit_label body_label
    >> (if allow_tail_call then op "swap drop" else silent)
    >> comment "-- Binding List--"
    >> bindings
    >> op "drop"
    >> comment "-- Binding List End--"
    >> comment "-- Let* Body--"
    >> body
    >> comment "-- Let* Body End--"
    >> op "swap ret"
    >> emit_label next_label
    >> comment "-- Let* End --"))

unfoldable pub frame_if : Emission → Emission → Emission → Emission
unfolding ◌>>◌ emit_comment gen_label emit_label emit_jump_label
frame_if test true_branch false_branch = gen_label (λ true_label. gen_label (λ done_label.
    comment "--If Start--"
    >> test
    >> emit_jump_label to_jnf true_label
    >> false_branch
    >> emit_jump_label to_jmp done_label
    >> comment "--If true--"
    >> emit_label true_label
    >> true_branch
    >> comment "--If Done--"
    >> emit_label done_label
    >> comment "--If End--"))

-- one clause of `emit_cond`
unfoldable pub frame_clause : ℕ → Emission → Emission → Emission
unfolding ◌>>◌ emit_comment emit_op gen_label emit_label emit_jump_label
frame_clause done_label test body =
    comment "----Cond Clause----"
    >> test
    >> op "not"
    >> gen_label (λ next_label.
      emit_jump_label to_jnf next_label
      >> body
      >> emit_jump_label to_jmp done_label
      >> emit_label next_label)

-- what stands between two operands of `emit_bool`
unfoldable pub frame_operand : Bool → ℕ → Emission
unfolding ◌>>◌ emit_op gen_label emit_label emit_jump_label
frame_operand and_or done_label =
    op "dup"
    >> (if and_or
        then gen_label (λ next_label.
          emit_jump_label to_jnf next_label
          >> emit_jump_label to_jmp done_label
          >> emit_label next_label)
        else emit_jump_label to_jnf done_label)
    >> op "drop"
