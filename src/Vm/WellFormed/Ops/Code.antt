-- ===== src/Vm/WellFormed/Ops/Code.antt =====
-- The invariant under the instructions that read the code.
use insomniac.Base.{ℕ, List, Option, none, some}
use insomniac.Vm.State.{Ptr}
use insomniac.Vm.Triple.{Keeps, Triple-bind, Keeps-bind, Keeps-gets, Keeps-pure}
use insomniac.Base.{refl}
use insomniac.Vm.WellFormed.{IsWellFormed}
use insomniac.Vm.WellFormed.Frame.{load_env-Linked, store_env-Keeps}
use insomniac.Vm.WellFormed.Raise.{machine_rules}
use insomniac.Vm.Ops.Literal.{
  current_env, advance, parse_int, parse_string, name_of, become_symbol, intern, make_symbol,
  op_lit_64bit, op_lit_char, op_lit_empty, op_lit_true, op_lit_false, op_lit_string, op_lit_symbol,
  op_make_symbol,
}

pub current_env-Keeps : Keeps IsWellFormed current_env
unfolding current_env
current_env-Keeps = search machine_rules

pub advance-Keeps : (n : ℕ) → Keeps IsWellFormed (advance n)
unfolding advance
advance-Keeps n =
    Keeps-bind _ _ (Keeps-gets _)
      λ p. Triple-bind _ _ (load_env-Linked p) λ e. store_env-Keeps p e _ refl

ruleset position_rules = (machine_rules, current_env-Keeps, advance-Keeps)

pub parse_int-Keeps : Keeps IsWellFormed parse_int
unfolding parse_int
parse_int-Keeps = search position_rules depth 9

pub parse_string-Keeps : Keeps IsWellFormed parse_string
unfolding parse_string
parse_string-Keeps = search (position_rules, parse_int-Keeps) depth 9

pub name_of-Keeps : (p : Ptr) → Keeps IsWellFormed (name_of p)
unfolding name_of
name_of-Keeps p = search machine_rules depth 9

become_symbol-Keeps : (p : Ptr) (name : List ℕ) → Keeps IsWellFormed (become_symbol p name)
unfolding become_symbol
become_symbol-Keeps p name = search machine_rules depth 12

intern-Keeps : (p : Ptr) (name : List ℕ) (o : Option Ptr) → Keeps IsWellFormed (intern p name o)
unfolding intern
intern-Keeps p name none = become_symbol-Keeps p name
intern-Keeps p name (some q) = Keeps-pure q

pub make_symbol-Keeps : (p : Ptr) → Keeps IsWellFormed (make_symbol p)
unfolding make_symbol
make_symbol-Keeps p = search (machine_rules, name_of-Keeps, intern-Keeps) depth 9

pub ruleset code_rules = (
  machine_rules, current_env-Keeps, advance-Keeps, parse_int-Keeps, parse_string-Keeps,
  name_of-Keeps, make_symbol-Keeps,
)

pub op_lit_64bit-Keeps : Keeps IsWellFormed op_lit_64bit
unfolding op_lit_64bit
op_lit_64bit-Keeps = search code_rules depth 9

pub op_lit_char-Keeps : Keeps IsWellFormed op_lit_char
unfolding op_lit_char
op_lit_char-Keeps = search code_rules depth 12

pub op_lit_empty-Keeps : Keeps IsWellFormed op_lit_empty
unfolding op_lit_empty
op_lit_empty-Keeps = search code_rules

pub op_lit_true-Keeps : Keeps IsWellFormed op_lit_true
unfolding op_lit_true
op_lit_true-Keeps = search code_rules

pub op_lit_false-Keeps : Keeps IsWellFormed op_lit_false
unfolding op_lit_false
op_lit_false-Keeps = search code_rules

pub op_lit_string-Keeps : Keeps IsWellFormed op_lit_string
unfolding op_lit_string
op_lit_string-Keeps = search code_rules

pub op_lit_symbol-Keeps : Keeps IsWellFormed op_lit_symbol
unfolding op_lit_symbol
op_lit_symbol-Keeps = search code_rules depth 9

pub op_make_symbol-Keeps : Keeps IsWellFormed op_make_symbol
unfolding op_make_symbol
op_make_symbol-Keeps = search code_rules depth 12
