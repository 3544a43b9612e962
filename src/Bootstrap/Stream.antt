-- ===== src/Bootstrap/Stream.antt =====
-- The streams of instruction nodes (bootstrap_internal.h, bootstrap_stream.c,
-- bootstrap_stream_nodes.c).
use insomniac.Base.{ℕ, Bool, Option, none, some, List, ◌++◌, if◌then◌else◌}
use insomniac.Vm.Text.{codes}

abbrev pub Text : Type 0
Text = List ℕ

-- where a node comes from
pub record Position : Type 0 where
  pub file : Text
  pub line : ℕ
  pub column : ℕ

-- `struct ins_node` and `struct ins_stream`. The union of a node holds a text, a stream or two
-- streams, as its type tells. A stream is a null pointer or has nodes, perhaps none. The position of
-- a node stands before it, and the rest of the nodes behind it, as `next` leads to them; the way back,
-- `prev`, is read nowhere.
mutual
  pub data Node : Type 0 where
    literal symbol string operation : Text → Node
    quoted load asm asm_stream record_type cond_node and_node or_node : Stream → Node
    bind store let_star two_arg if_node math lambda call : Stream → Stream → Node

  pub data Nodes : Type 0 where
    end : Nodes
    put : Position → Node → Nodes → Nodes

  pub data Stream : Type 0 where
    null_stream : Stream
    stream : Nodes → Stream

unfoldable pub concat_nodes : Nodes → Nodes → Nodes
concat_nodes end source = source
concat_nodes (put at node rest) source = put at node (concat_nodes rest source)

-- The nodes of the source behind those of the stream. `none` is an `assert(0)`, for a source that is
-- null, and the access through a stream that is null.
unfoldable pub stream_concat : Stream → Stream → Option Stream
unfolding concat_nodes
stream_concat to null_stream = none
stream_concat to (stream end) = some to
stream_concat null_stream (stream (put at node rest)) = none
stream_concat (stream nodes) (stream (put at node rest)) =
    some (stream (concat_nodes nodes (put at node rest)))

-- on the nodes of a stream that exists
unfoldable pub stream_append : Nodes → Position → Node → Nodes
stream_append end at node = put at node end
stream_append (put p n rest) at node = put p n (stream_append rest at node)

unfoldable pub stream_bare : (Text → Node) → Text → Position → Nodes → Nodes
unfolding stream_append
stream_bare type lit at nodes = stream_append nodes at (type lit)

unfoldable pub stream_boolean : Bool → Position → Nodes → Nodes
unfolding stream_append
stream_boolean b at nodes = stream_append nodes at (literal (if b then codes "#t" else codes "#f"))

unfoldable pub stream_char : Text → Position → Nodes → Nodes
unfolding stream_append
stream_char str at nodes = stream_append nodes at (literal (codes "#\\" ++ str))

unfoldable pub stream_symbol : Text → Position → Nodes → Nodes
unfolding stream_append
stream_symbol str at nodes = stream_append nodes at (symbol (codes "s\"" ++ (str ++ codes "\"")))

-- BUILD_SINGLE_STREAM and BUILD_DOUBLE_STREAM
unfoldable pub stream_single : (Stream → Node) → Stream → Position → Nodes → Nodes
unfolding stream_append
stream_single type arg1 at nodes = stream_append nodes at (type arg1)

unfoldable pub stream_double : (Stream → Stream → Node) → Stream → Stream → Position → Nodes → Nodes
unfolding stream_append
stream_double type arg1 arg2 at nodes = stream_append nodes at (type arg1 arg2)
