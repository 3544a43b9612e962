-- ===== src/Bootstrap/Labels/Frames.antt =====
-- The labels of the code that frames branches, clauses, lambdas and records.
use insomniac.Base.{ℕ, refl, Bool, true, false, List, [], ◌∷◌, arith}
use mathlib.Core.List.{Memᴰ}
use Prim.Native.String.{String}
use insomniac.Vm.Text.{codes}
use insomniac.Bootstrap.Stream.{
  Node, literal, symbol, string, operation, quoted, load, asm, asm_stream, record_type, cond_node,
  and_node, or_node, bind, store, let_star, two_arg, if_node, math, lambda, call, Nodes, end, put,
  Stream, null_stream, stream,
}
use insomniac.Bootstrap.Output.{Emission, gen_label, to_jmp, to_jnf, to_call, to_proc, emit_literal}
use insomniac.Bootstrap.Frames.{
  op, comment, emit_text, is_literal, emit_unless, emit_formals, emit_parameters, emit_quoted_node,
  emit_quoted_nodes, emit_quoted, emit_record_type, frame_lambda, frame_let_star, frame_if,
  frame_clause, frame_operand,
}
use insomniac.Bootstrap.Shape.{
  IsPlain, IsText, IsFormals, IsParameters, IsQuoted, AreQuoted, IsDatum,
}
use insomniac.Bootstrap.Labels.Emits.{
  Emits, Emits-silent, Emits-label, Emits-jump, Emits-op, Emits-comment, Emits-string, ◌⟫◌,
  Emits-gen, Emits-if,
}

-- the label made last, and the one made before it
pub last_label : {k : ℕ} {around : List ℕ} → Memᴰ k (k ∷ around)
last_label = Memᴰ.head refl

first_label : {k l : ℕ} {around : List ℕ} → Memᴰ k (l ∷ k ∷ around)
first_label = Memᴰ.tail (Memᴰ.head refl)

-- one new label
pub Emits-gen_one :
    {around : List ℕ} {f : ℕ → Emission}
    → ((k : ℕ) → Emits (k ∷ []) (k ∷ around) (f k))
    → Emits [] around (gen_label f)
Emits-gen_one rest = Emits-gen (λ k j. refl) rest

-- two new labels, defined in this order
Emits-gen_two :
    {around : List ℕ} {f : ℕ → ℕ → Emission}
    → ((k l : ℕ) → Emits (k ∷ l ∷ []) (l ∷ k ∷ around) (f k l))
    → Emits [] around (gen_label (λ k. gen_label (f k)))
Emits-gen_two rest = Emits-gen_one (λ k. Emits-gen (λ l j. omega arith) (rest k))

-- an instruction and a comment of the source
pub o : {around : List ℕ} (str : String) → IsPlain (codes str) → Emits [] around (op str)
o str plain = Emits-op (codes str) plain

pub c : {around : List ℕ} (str : String) → Emits [] around (comment str)
c str = Emits-comment (codes str)

module _ {around : List ℕ} where
  pub frame_if-Emits :
      {test a b : Emission}
      → ((more : List ℕ) → Emits [] more test)
      → ((more : List ℕ) → Emits [] more a)
      → ((more : List ℕ) → Emits [] more b)
      → Emits [] around (frame_if test a b)
  unfolding frame_if
  frame_if-Emits t f g = Emits-gen_two (λ k l.
      c "--If Start--"
      ⟫ t _
      ⟫ Emits-jump to_jnf k first_label
      ⟫ g _
      ⟫ Emits-jump to_jmp l last_label
      ⟫ c "--If true--"
      ⟫ Emits-label k
      ⟫ f _
      ⟫ c "--If Done--"
      ⟫ Emits-label l
      ⟫ c "--If End--")

  pub frame_lambda-Emits :
      {body : Emission} (formals : Stream)
      → ((more : List ℕ) → Emits [] more (emit_parameters formals))
      → ((more : List ℕ) → Emits [] more body)
      → Emits [] around (frame_lambda formals body)
  unfolding frame_lambda
  frame_lambda-Emits formals p b = Emits-gen_two (λ k l.
      Emits-jump to_jmp l last_label
      ⟫ Emits-label k
      ⟫ o "swap" refl
      ⟫ c "-- Formals --"
      ⟫ p _
      ⟫ c "-- Body --"
      ⟫ b _
      ⟫ o "swap ret" refl
      ⟫ Emits-label l
      ⟫ Emits-jump to_proc k first_label)

  pub frame_let_star-Emits :
      {bindings body : Emission} (allow : Bool)
      → ((more : List ℕ) → Emits [] more bindings)
      → ((more : List ℕ) → Emits [] more body)
      → Emits [] around (frame_let_star allow bindings body)
  unfolding frame_let_star
  frame_let_star-Emits allow p b = Emits-gen_two (λ k l.
      c "-- Let* --"
      ⟫ Emits-if allow (o "()" refl ⟫ Emits-jump to_proc k first_label ⟫ o "tail_call_in" refl)
          (Emits-jump to_call k first_label ⟫ Emits-jump to_jmp l last_label)
      ⟫ Emits-label k
      ⟫ Emits-if allow (o "swap drop" refl) Emits-silent
      ⟫ c "-- Binding List--"
      ⟫ p _
      ⟫ o "drop" refl
      ⟫ c "-- Binding List End--"
      ⟫ c "-- Let* Body--"
      ⟫ b _
      ⟫ c "-- Let* Body End--"
      ⟫ o "swap ret" refl
      ⟫ Emits-label l
      ⟫ c "-- Let* End --")

  pub frame_clause-Emits :
      {test body : Emission} (done_label : ℕ)
      → Memᴰ done_label around
      → ((more : List ℕ) → Emits [] more test)
      → ((more : List ℕ) → Emits [] more body)
      → Emits [] around (frame_clause done_label test body)
  unfolding frame_clause
  frame_clause-Emits done_label i t b =
      c "----Cond Clause----"
      ⟫ t _
      ⟫ o "not" refl
      ⟫ Emits-gen_one (λ k.
        Emits-jump to_jnf k last_label
        ⟫ b _
        ⟫ Emits-jump to_jmp done_label (Memᴰ.tail i)
        ⟫ Emits-label k)

  pub frame_operand-Emits :
      (and_or : Bool) (done_label : ℕ)
      → Memᴰ done_label around
      → Emits [] around (frame_operand and_or done_label)
  unfolding frame_operand
  frame_operand-Emits and_or done_label i =
      o "dup" refl
      ⟫ Emits-if and_or
          (Emits-gen_one (λ k.
            Emits-jump to_jnf k last_label
            ⟫ Emits-jump to_jmp done_label (Memᴰ.tail i)
            ⟫ Emits-label k))
          (Emits-jump to_jnf done_label i)
      ⟫ o "drop" refl

  pub emit_text-Emits : (node : Node) → IsText node → Emits [] around (emit_text node)
  unfolding emit_text emit_literal
  emit_text-Emits (literal str) shaped = Emits-op str shaped
  emit_text-Emits (symbol str) shaped = Emits-op str shaped
  emit_text-Emits (string str) shaped = Emits-op str shaped
  emit_text-Emits (operation str) shaped = Emits-op str shaped
  emit_text-Emits _ shaped = absurd shaped

  pub emit_unless-Emits :
      {e : Emission} (pushed : Bool) → Emits [] around e → Emits [] around (emit_unless pushed e)
  unfolding emit_unless
  emit_unless-Emits pushed f = Emits-if pushed Emits-silent f

pub emit_formals-Emits :
    (formals : Nodes)
    → IsFormals formals
    → (around : List ℕ) → Emits [] around (emit_formals formals)
unfolding emit_formals
emit_formals-Emits end shaped around = c "----" ⟫ o "drop" refl
emit_formals-Emits (put at node end) shaped around =
    Emits-if (is_literal node) (c "----" ⟫ o "drop" refl)
      (c "----" ⟫ emit_text-Emits node shaped ⟫ o "bind" refl ⟫ c "----")
emit_formals-Emits (put at node (put at' next rest)) (text, shaped) around =
    Emits-if (is_literal node) (c "----" ⟫ o "drop" refl) (
      c "----"
      ⟫ o "dup" refl
      ⟫ o "car" refl
      ⟫ emit_text-Emits node text
      ⟫ o "bind" refl
      ⟫ Emits-if (is_literal next) Emits-silent (o "cdr" refl)
      ⟫ emit_formals-Emits (put at' next rest) shaped around)

pub emit_parameters-Emits :
    (formals : Stream)
    → IsParameters formals
    → (around : List ℕ) → Emits [] around (emit_parameters formals)
unfolding emit_parameters
emit_parameters-Emits null_stream shaped around = absurd shaped
emit_parameters-Emits (stream formals) shaped around = emit_formals-Emits formals shaped around

mutual
  unfolding emit_quoted_node emit_quoted_nodes emit_quoted emit_literal IsQuoted AreQuoted IsDatum

  emit_quoted_node-Emits :
      (node : Node) → IsDatum node → (around : List ℕ) → Emits [] around (emit_quoted_node node)
  emit_quoted_node-Emits (quoted tree) shaped around = emit_quoted-Emits tree shaped around
  emit_quoted_node-Emits (literal str) shaped around = Emits-op str shaped
  emit_quoted_node-Emits (symbol str) shaped around = Emits-op str shaped
  emit_quoted_node-Emits (string str) shaped around = Emits-string str
  emit_quoted_node-Emits (operation str) shaped around = Emits-silent
  emit_quoted_node-Emits (load a) shaped around = Emits-silent
  emit_quoted_node-Emits (asm a) shaped around = Emits-silent
  emit_quoted_node-Emits (asm_stream a) shaped around = Emits-silent
  emit_quoted_node-Emits (record_type a) shaped around = Emits-silent
  emit_quoted_node-Emits (cond_node a) shaped around = Emits-silent
  emit_quoted_node-Emits (and_node a) shaped around = Emits-silent
  emit_quoted_node-Emits (or_node a) shaped around = Emits-silent
  emit_quoted_node-Emits (bind a b) shaped around = Emits-silent
  emit_quoted_node-Emits (store a b) shaped around = Emits-silent
  emit_quoted_node-Emits (let_star a b) shaped around = Emits-silent
  emit_quoted_node-Emits (two_arg a b) shaped around = Emits-silent
  emit_quoted_node-Emits (if_node a b) shaped around = Emits-silent
  emit_quoted_node-Emits (math a b) shaped around = Emits-silent
  emit_quoted_node-Emits (lambda a b) shaped around = Emits-silent
  emit_quoted_node-Emits (call a b) shaped around = Emits-silent

  pub emit_quoted-Emits :
      (tree : Stream) → IsQuoted tree → (around : List ℕ) → Emits [] around (emit_quoted tree)
  emit_quoted-Emits null_stream shaped around = absurd shaped
  emit_quoted-Emits (stream tree) shaped around =
      c "--Quoted Start--" ⟫ emit_quoted_nodes-Emits tree shaped false around ⟫ c "--Quoted End--"

  emit_quoted_nodes-Emits :
      (tree : Nodes)
      → AreQuoted tree
      → (is_list : Bool) (around : List ℕ) → Emits [] around (emit_quoted_nodes tree is_list)
  emit_quoted_nodes-Emits end shaped is_list around = Emits-silent
  emit_quoted_nodes-Emits (put at head rest) (sh, sr) is_list around =
      emit_quoted_node-Emits head sh around
      ⟫ Emits-if is_list (o "cons" refl) Emits-silent
      ⟫ emit_quoted_nodes-Emits rest sr true around

pub emit_record_type-Emits :
    (def : Stream) → IsQuoted def → (around : List ℕ) → Emits [] around (emit_record_type def)
unfolding emit_record_type
emit_record_type-Emits def shaped around =
    c "--Record Start--"
    ⟫ emit_quoted-Emits def shaped around
    ⟫ o "s\"record-type-factory\"" refl
    ⟫ o "@" refl
    ⟫ o "call_in" refl
    ⟫ c "--Record Binding--"
    ⟫ Emits-gen_two (λ k l.
      Emits-label k
      ⟫ o "dup" refl
      ⟫ o "null?" refl
      ⟫ Emits-jump to_jnf l last_label
      ⟫ o "dup" refl
      ⟫ o "car" refl
      ⟫ o "dup" refl
      ⟫ o "cdr" refl
      ⟫ o "swap" refl
      ⟫ o "car" refl
      ⟫ o "bind" refl
      ⟫ o "cdr" refl
      ⟫ Emits-jump to_jmp k first_label
      ⟫ Emits-label l
      ⟫ c "--Record End--")
