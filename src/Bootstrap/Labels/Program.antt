-- ===== src/Bootstrap/Labels/Program.antt =====
-- The labels of a whole program.
use insomniac.Base.{
  ℕ, refl, ◌≤◌, ◌<◌, ◌≡◌, Bool, true, false, not, ◌&&◌, some, List, [], ◌∷◌, inl, inr, arith,
}
use mathlib.Core.List.{Memᴰ}
use mathlib.Core.List.Memᴰ
use insomniac.Bootstrap.Stream.{
  Node, literal, symbol, string, operation, quoted, load, asm, asm_stream, record_type, cond_node,
  and_node, or_node, bind, store, let_star, two_arg, if_node, math, lambda, call, Nodes, end, put,
  Stream, null_stream, stream,
}
use insomniac.Bootstrap.Output.{Line, emit_literal}
use insomniac.Bootstrap.Emit.{
  emit_node, emit_stream, emit_nodes, emit_asm, emit_raw, emit_cond, emit_clauses, emit_bool,
  emit_operands, emit_args, emit_arguments, compiler_code_gen,
}
use insomniac.Bootstrap.Frames.{pushes}
use insomniac.Bootstrap.Shape.{
  IsShaped, IsProgram, IsPresent, AreShaped, IsAsm, AreRaw, IsCond, AreClauses,
}
use insomniac.Bootstrap.Labels.Emits.{
  defined, between, AllLines, AllLines-map, Emits, Emits-silent, Emits-label, Emits-op,
  Emits-string, Emits-debug, ◌⟫◌, Emits-if,
}
use insomniac.Bootstrap.Labels.Frames.{
  o, c, Emits-gen_one, last_label, frame_if-Emits, frame_lambda-Emits, frame_let_star-Emits,
  frame_clause-Emits, frame_operand-Emits, emit_text-Emits, emit_unless-Emits,
  emit_parameters-Emits, emit_quoted-Emits, emit_record_type-Emits,
}

mutual
  unfolding IsShaped IsProgram IsPresent AreShaped IsAsm AreRaw IsCond AreClauses emit_node
      emit_stream emit_nodes emit_asm emit_raw emit_cond emit_clauses emit_bool emit_operands
      emit_args emit_arguments emit_literal

  emit_node-Emits :
      (node : Node)
      → IsShaped node
      → (last allow : Bool) (around : List ℕ) → Emits [] around (emit_node node last allow)
  emit_node-Emits (literal str) shaped last allow around = Emits-op str shaped
  emit_node-Emits (symbol str) shaped last allow around = Emits-op str shaped
  emit_node-Emits (operation str) shaped last allow around = Emits-op str shaped
  emit_node-Emits (string str) shaped last allow around = Emits-string str
  emit_node-Emits (quoted tree) shaped last allow around = emit_quoted-Emits tree shaped around
  emit_node-Emits (record_type def) shaped last allow around =
      emit_record_type-Emits def shaped around
  emit_node-Emits (asm tree) shaped last allow around = emit_asm-Emits tree shaped around
  emit_node-Emits (load tree) shaped last allow around =
      emit_stream-Emits tree shaped false around ⟫ o "@" refl
  emit_node-Emits (cond_node clauses) shaped last allow around = Emits-gen_one (λ k.
      c "--Cond Start--"
      ⟫ emit_cond-Emits clauses shaped allow k (k ∷ around) last_label
      ⟫ c "--Cond Fall-Through--"
      ⟫ o "()" refl
      ⟫ Emits-label k
      ⟫ c "--Cond End--")
  emit_node-Emits (if_node test (stream (put at (two_arg a b) rest))) (st, sa, sb) last allow
        around =
      frame_if-Emits (emit_stream-Emits test st false) (emit_stream-Emits a sa allow)
        (emit_stream-Emits b sb allow)
  emit_node-Emits (if_node test branches) shaped last allow around = absurd shaped
  emit_node-Emits (and_node tree) shaped last allow around = Emits-gen_one (λ k.
      c "--Bool Operator Start--"
      ⟫ emit_bool-Emits tree shaped true k (k ∷ around) last_label
      ⟫ Emits-label k
      ⟫ c "--Bool Operator End--")
  emit_node-Emits (or_node tree) shaped last allow around = Emits-gen_one (λ k.
      c "--Bool Operator Start--"
      ⟫ emit_bool-Emits tree shaped false k (k ∷ around) last_label
      ⟫ Emits-label k
      ⟫ c "--Bool Operator End--")
  emit_node-Emits (math (stream (put at operator rest)) (stream (put at' (two_arg a b) rest')))
        (text, sa, sb) last allow around =
      emit_stream-Emits a sa false around
      ⟫ emit_stream-Emits b sb false around
      ⟫ emit_text-Emits operator text
  emit_node-Emits (math operator operands) shaped last allow around = absurd shaped
  emit_node-Emits (lambda formals body) (sf, sb) last allow around =
      frame_lambda-Emits formals (emit_parameters-Emits formals sf) (emit_stream-Emits body sb true)
  emit_node-Emits (call function args) (sa, sf) last allow around =
      c "--Call Start--"
      ⟫ o "()" refl
      ⟫ emit_args-Emits args sa around
      ⟫ emit_stream-Emits function sf false around
      ⟫ Emits-if (allow && last) (o "tail_call_in" refl) (o "call_in" refl)
      ⟫ c "--Call End--"
  emit_node-Emits (bind a b) (sa, sb) last allow around =
      emit_stream-Emits a sa false around ⟫ emit_stream-Emits b sb false around ⟫ o "bind" refl
  emit_node-Emits (store a b) (sa, sb) last allow around =
      emit_stream-Emits a sa false around ⟫ emit_stream-Emits b sb false around ⟫ o "!" refl
  emit_node-Emits (let_star bindings body) (sl, sb) last allow around =
      frame_let_star-Emits allow (emit_stream-Emits bindings sl false)
        (emit_stream-Emits body sb allow)
  emit_node-Emits (asm_stream tree) shaped last allow around = Emits-silent
  emit_node-Emits (two_arg a b) shaped last allow around = Emits-silent

  emit_stream-Emits :
      (tree : Stream)
      → IsProgram tree
      → (allow : Bool) (around : List ℕ) → Emits [] around (emit_stream tree allow)
  emit_stream-Emits null_stream shaped allow around = o "()" refl
  emit_stream-Emits (stream tree) shaped allow around =
      emit_nodes-Emits tree shaped false allow around

  emit_nodes-Emits :
      (tree : Nodes)
      → AreShaped tree
      → (pushed allow : Bool) (around : List ℕ) → Emits [] around (emit_nodes tree pushed allow)
  emit_nodes-Emits end shaped pushed allow around = emit_unless-Emits pushed (o "()" refl)
  emit_nodes-Emits (put at head end) (sh, _) pushed allow around =
      Emits-debug at
      ⟫ emit_node-Emits head sh true allow around
      ⟫ emit_unless-Emits (pushes head) (o "()" refl)
  emit_nodes-Emits (put at head (put at' next rest)) (sh, sr) pushed allow around =
      Emits-debug at
      ⟫ emit_node-Emits head sh false false around
      ⟫ emit_unless-Emits (not (pushes head)) (o "drop" refl)
      ⟫ emit_nodes-Emits (put at' next rest) sr (pushes head) allow around

  emit_asm-Emits :
      (tree : Stream) → IsAsm tree → (around : List ℕ) → Emits [] around (emit_asm tree)
  emit_asm-Emits null_stream shaped around = absurd shaped
  emit_asm-Emits (stream tree) shaped around =
      c "--Raw ASM Start--" ⟫ emit_raw-Emits tree shaped around ⟫ c "--Raw ASM End--"

  emit_raw-Emits :
      (tree : Nodes) → AreRaw tree → (around : List ℕ) → Emits [] around (emit_raw tree)
  emit_raw-Emits end shaped around = Emits-silent
  emit_raw-Emits (put at (asm_stream tree) rest) (st, sr) around =
      c "----Escape ASM Start----"
      ⟫ emit_stream-Emits tree st false around
      ⟫ c "----Escape ASM End----"
      ⟫ emit_raw-Emits rest sr around
  emit_raw-Emits (put at head rest) (text, sr) around =
      emit_text-Emits head text ⟫ emit_raw-Emits rest sr around

  emit_cond-Emits :
      (clauses : Stream)
      → IsCond clauses
      → (allow : Bool) (done_label : ℕ) (around : List ℕ) → Memᴰ done_label around
      → Emits [] around (emit_cond clauses allow done_label)
  emit_cond-Emits null_stream shaped allow done_label around i = absurd shaped
  emit_cond-Emits (stream clauses) shaped allow done_label around i =
      emit_clauses-Emits clauses shaped allow done_label around i

  emit_clauses-Emits :
      (clauses : Nodes)
      → AreClauses clauses
      → (allow : Bool) (done_label : ℕ) (around : List ℕ) → Memᴰ done_label around
      → Emits [] around (emit_clauses clauses allow done_label)
  emit_clauses-Emits end shaped allow done_label around i = Emits-silent
  emit_clauses-Emits (put at (cond_node (stream (put at' (two_arg test body) more))) rest)
        (st, sb, sr) allow done_label around i =
      frame_clause-Emits done_label i (emit_stream-Emits test st false)
        (emit_stream-Emits body sb allow)
      ⟫ emit_clauses-Emits rest sr allow done_label around i
  emit_clauses-Emits (put at head rest) shaped allow done_label around i = absurd shaped

  emit_bool-Emits :
      (tree : Stream)
      → IsProgram tree
      → (and_or : Bool) (done_label : ℕ) (around : List ℕ) → Memᴰ done_label around
      → Emits [] around (emit_bool tree and_or done_label)
  emit_bool-Emits null_stream shaped and_or done_label around i =
      Emits-if and_or (o "#t" refl) (o "#f" refl)
  emit_bool-Emits (stream tree) shaped and_or done_label around i =
      emit_operands-Emits tree shaped and_or done_label around i

  emit_operands-Emits :
      (tree : Nodes)
      → AreShaped tree
      → (and_or : Bool) (done_label : ℕ) (around : List ℕ) → Memᴰ done_label around
      → Emits [] around (emit_operands tree and_or done_label)
  emit_operands-Emits end shaped and_or done_label around i =
      Emits-if and_or (o "#t" refl) (o "#f" refl)
  emit_operands-Emits (put at head end) (sh, _) and_or done_label around i =
      Emits-debug at
      ⟫ emit_node-Emits head sh true false around
      ⟫ emit_unless-Emits (pushes head) (o "()" refl)
  emit_operands-Emits (put at head (put at' next rest)) (sh, sr) and_or done_label around i =
      Emits-debug at
      ⟫ emit_node-Emits head sh false false around
      ⟫ emit_unless-Emits (pushes head) (o "()" refl)
      ⟫ frame_operand-Emits and_or done_label i
      ⟫ emit_operands-Emits (put at' next rest) sr and_or done_label around i

  emit_args-Emits :
      (args : Stream) → IsPresent args → (around : List ℕ) → Emits [] around (emit_args args)
  emit_args-Emits null_stream shaped around = absurd shaped
  emit_args-Emits (stream args) shaped around = emit_arguments-Emits args shaped around

  emit_arguments-Emits :
      (args : Nodes) → AreShaped args → (around : List ℕ) → Emits [] around (emit_arguments args)
  emit_arguments-Emits end shaped around = Emits-silent
  emit_arguments-Emits (put at head rest) (sh, sr) around =
      Emits-debug at
      ⟫ emit_node-Emits head sh false false around
      ⟫ emit_unless-Emits (pushes head) (o "()" refl)
      ⟫ o "cons" refl
      ⟫ emit_arguments-Emits rest sr around

-- For a program whose nodes hold what their types tell, whose formals, clauses, arguments,
-- branches, quoted objects and raw assembler are not null streams, and whose texts have no
-- label and no name of a jump: code generation returns, each label that it makes is defined
-- exactly once and no other label is defined, each jump leads to one of these labels, and no
-- other instruction is a label or the name of a jump.
pub compiler_code_gen_lem :
    (program : Stream) (n : ℕ)
    → IsProgram program
    → (lines : List Line) × (n' : ℕ) × (compiler_code_gen program n ≡ some (lines, n'))
      × (n ≤ n')
      × ((k : ℕ) → defined k lines ≡ between n n' k)
      × AllLines (λ k. (n ≤ k) × (k < n')) lines
unfolding compiler_code_gen
compiler_code_gen_lem program n shaped =
    let ((lines, n'), went, (le, once, targets)) =
      (emit_stream-Emits program shaped false []).returns n in
    (
      lines,
      n',
      went,
      le,
      λ k. omega (arith, once k),
      AllLines-map _ _ lines (λ k t. elim t [ inl r ↦ r | inr i ↦ absurd (Memᴰ.not-nil i) ])
          targets,
    )
