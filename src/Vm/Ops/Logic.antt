-- ===== src/Vm/Ops/Logic.antt =====
-- vm_logic.c, and the type tests of vm_ops.c and vm_types.h
use insomniac.Base.{
  ℕ, ◌%◌, ◌^◌, Bool, true, false, not, ◌&&◌, ◌||◌, Option, none, some, if◌then◌else◌, ◌==◌,
}
use mathlib.Core.Option
use insomniac.Vm.State.{Ptr, null, CellType, Object, type_of, has_type}
use insomniac.Vm.Run.{M, pure, gets, need, ◌>>=◌}
use insomniac.Vm.Text.{strcmp_equal}
use insomniac.Vm.Heap.{deref, load_block}
use insomniac.Vm.Exception.{vm_push, vm_pop}

-- `result ? vm->vm_true : vm->vm_false`
unfoldable pub push_bool : Bool → M (Unit {0})
unfolding vm_push
push_bool true = gets (λ vm. vm.vm_true) >>= vm_push
push_bool false = gets (λ vm. vm.vm_false) >>= vm_push

-- `value.integer` of any object, by the layout of the union: a length or a smaller number stands in
-- its first bytes, and what was not written is zero. `none` is a number that a pointer decides.
unfoldable pub integer_view : Object → Option ℕ
integer_view (Object.fixnum n) = some n
integer_view (Object.bool true) = some 1
integer_view (Object.bool false) = some 0
integer_view (Object.char c) = some c
integer_view (Object.string n _) = some n
integer_view (Object.symbol n _) = some n
integer_view (Object.vector n _) = some n
integer_view (Object.byte_vector n _) = some n
integer_view (Object.record_type n _) = some n
integer_view (Object.pair _ _) = none
integer_view Object.empty = some 0
integer_view (Object.closure _) = none
integer_view Object.library = none

-- the low byte as a `bool`, which must hold 0 or 1
abbrev pub to_boolean : ℕ → Option Bool
to_boolean n = if n % 256 == 0 then some false else if n % 256 == 1 then some true else none

abbrev pub same_bool : Bool → Bool → Bool
same_bool true b = b
same_bool false b = not b

-- `value.string.bytes` where the second field is a pointer to bytes
unfoldable pub bytes_of : Object → Option (ℕ × Ptr)
bytes_of (Object.string n b) = some (n, b)
bytes_of (Object.symbol n b) = some (n, b)
bytes_of (Object.byte_vector n b) = some (n, b)
bytes_of _ = none

unfoldable pub same_string : Ptr → Object → M Bool
unfolding bytes_of load_block strcmp_equal
same_string bytes o = do
  other ← need (bytes_of o)
  a ← load_block bytes
  b ← load_block other.1
  need (strcmp_equal a b)

-- the `switch` on the type of the first object
unfoldable pub equivalent : Ptr → Ptr → Object → Object → M Bool
unfolding integer_view same_string
equivalent obj1 obj2 (Object.fixnum n) o2 = need (Option.map (λ m. n == m) (integer_view o2))
equivalent obj1 obj2 (Object.bool b) o2 =
    need (Option.map (λ c. same_bool b c) (Option.bind (integer_view o2) to_boolean))
equivalent obj1 obj2 (Object.char c) o2 = need (Option.map (λ m. c == m % 2 ^ 32) (integer_view o2))
equivalent obj1 obj2 (Object.string n bytes) o2 = same_string bytes o2
equivalent obj1 obj2 _ o2 = pure (obj1 == obj2)

unfoldable pub op_eq : M (Unit {0})
unfolding vm_pop deref equivalent push_bool
op_eq = do
  obj1 ← vm_pop
  obj2 ← vm_pop
  o1 ← deref obj1
  o2 ← deref obj2
  if (obj1 == null || obj2 == null) && not (has_type o1 (type_of o2))
      then push_bool false
      else (equivalent obj1 obj2 o1 o2 >>= push_bool)

-- `obj->type == BOOL && !obj->value.boolean`
abbrev pub is_false : Object → Bool
is_false (Object.bool b) = not b
is_false _ = false

unfoldable pub op_not : M (Unit {0})
unfolding vm_pop deref push_bool
op_not = do obj ← vm_pop; o ← deref obj; push_bool (is_false o)

-- the macro TYPE_OP
unfoldable pub type_op : (Object → Bool) → M (Unit {0})
unfolding vm_pop deref push_bool
type_op test = do
  obj ← vm_pop
  if obj == null then push_bool false else (do o ← deref obj; push_bool (test o))

abbrev pub type_test : CellType → Object → Bool
type_test t o = has_type o t

-- the test of `op_is_self`: the objects that evaluate to themselves
abbrev pub is_self : Object → Bool
is_self o =
    has_type o CellType.fixnum
    || (has_type o CellType.bool
        || (has_type o CellType.char
            || (has_type o CellType.string
                || (has_type o CellType.vector || has_type o CellType.byte_vector))))
