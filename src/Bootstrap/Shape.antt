-- ===== src/Bootstrap/Shape.antt =====
-- The streams that the compiler can emit (scheme.y): each node holds what its type tells, and the
-- streams that are read without a test are there. The grammar builds a null stream for `(begin)` and
-- for the clauses of `(cond)`.
use insomniac.Base.{◌≡◌, Bool, true, false, not, ◌&&◌, ◌||◌, [], ◌∷◌, ◌==◌}
use insomniac.Vm.Text.{codes}
use insomniac.Bootstrap.Stream.{
  Text, Node, literal, symbol, string, operation, quoted, load, asm, asm_stream, record_type,
  cond_node, and_node, or_node, bind, store, let_star, two_arg, if_node, math, lambda, call, Nodes,
  end, put, Stream, null_stream, stream,
}

abbrev has_colon : Text → Bool
has_colon [] = false
has_colon (c ∷ cs) = c == 58 || has_colon cs

abbrev equal_text : Text → Text → Bool
equal_text [] [] = true
equal_text [] (b ∷ bs) = false
equal_text (a ∷ as') [] = false
equal_text (a ∷ as') (b ∷ bs) = a == b && equal_text as' bs

-- a constant with `#` in front, or a symbol in quotes
abbrev is_constant : Text → Bool
is_constant (c ∷ []) = c == 35
is_constant (c ∷ d ∷ cs) = c == 35 || (c == 115 && d == 34)
is_constant [] = false

abbrev is_jump_word : Text → Bool
is_jump_word str =
    equal_text str (codes "jmp")
    || (equal_text str (codes "jnf")
        || (equal_text str (codes "call")
            || (equal_text str (codes "proc") || equal_text str (codes "continue"))))

-- The assembler reads neither a label nor a jump in this text.
abbrev pub is_plain : Text → Bool
is_plain str = (is_constant str || not (has_colon str)) && not (is_jump_word str)

abbrev pub IsPlain : Text → Type 0
IsPlain str = is_plain str ≡ true

-- a node that holds a text, without labels and jumps
abbrev pub IsText : Node → Type 0
IsText (literal str) = IsPlain str
IsText (symbol str) = IsPlain str
IsText (string str) = IsPlain str
IsText (operation str) = IsPlain str
IsText _ = ⊥

abbrev pub IsFormals : Nodes → Type 0
IsFormals end = Unit
IsFormals (put at node end) = IsText node
IsFormals (put at node (put at' next rest)) = IsText node × IsFormals (put at' next rest)

abbrev pub IsParameters : Stream → Type 0
IsParameters null_stream = ⊥
IsParameters (stream formals) = IsFormals formals

unfoldable mutual
  pub IsQuoted : Stream → Type 0
  IsQuoted null_stream = ⊥
  IsQuoted (stream tree) = AreQuoted tree

  pub AreQuoted : Nodes → Type 0
  AreQuoted end = Unit
  AreQuoted (put at head rest) = IsDatum head × AreQuoted rest

  pub IsDatum : Node → Type 0
  IsDatum (quoted tree) = IsQuoted tree
  IsDatum (literal str) = IsPlain str
  IsDatum (symbol str) = IsPlain str
  IsDatum _ = Unit

unfoldable mutual
  unfolding IsQuoted

  pub IsShaped : Node → Type 0
  IsShaped (literal str) = IsPlain str
  IsShaped (symbol str) = IsPlain str
  IsShaped (operation str) = IsPlain str
  IsShaped (quoted tree) = IsQuoted tree
  IsShaped (record_type def) = IsQuoted def
  IsShaped (asm tree) = IsAsm tree
  IsShaped (load tree) = IsProgram tree
  IsShaped (cond_node clauses) = IsCond clauses
  IsShaped (if_node test (stream (put at (two_arg a b) rest))) =
      IsProgram test × IsProgram a × IsProgram b
  IsShaped (if_node test branches) = ⊥
  IsShaped (and_node tree) = IsProgram tree
  IsShaped (or_node tree) = IsProgram tree
  IsShaped (math (stream (put at operator rest)) (stream (put at' (two_arg a b) rest'))) =
      IsText operator × IsProgram a × IsProgram b
  IsShaped (math operator operands) = ⊥
  IsShaped (lambda formals body) = IsParameters formals × IsProgram body
  IsShaped (call function args) = IsPresent args × IsProgram function
  IsShaped (bind a b) = IsProgram a × IsProgram b
  IsShaped (store a b) = IsProgram a × IsProgram b
  IsShaped (let_star bindings body) = IsProgram bindings × IsProgram body
  IsShaped _ = Unit

  -- each node of the stream, which may be null
  pub IsProgram : Stream → Type 0
  IsProgram null_stream = Unit
  IsProgram (stream nodes) = AreShaped nodes

  -- the same for a stream that is not null
  pub IsPresent : Stream → Type 0
  IsPresent null_stream = ⊥
  IsPresent (stream nodes) = AreShaped nodes

  pub AreShaped : Nodes → Type 0
  AreShaped end = Unit
  AreShaped (put at head rest) = IsShaped head × AreShaped rest

  pub IsAsm : Stream → Type 0
  IsAsm null_stream = ⊥
  IsAsm (stream tree) = AreRaw tree

  pub AreRaw : Nodes → Type 0
  AreRaw end = Unit
  AreRaw (put at (asm_stream tree) rest) = IsProgram tree × AreRaw rest
  AreRaw (put at head rest) = IsText head × AreRaw rest

  pub IsCond : Stream → Type 0
  IsCond null_stream = ⊥
  IsCond (stream clauses) = AreClauses clauses

  pub AreClauses : Nodes → Type 0
  AreClauses end = Unit
  AreClauses (put at (cond_node (stream (put at' (two_arg test body) more))) rest) =
      IsProgram test × IsProgram body × AreClauses rest
  AreClauses (put at head rest) = ⊥
