-- ===== src/Vm/Ops/Math.antt =====
-- vm_math.h and the arithmetic instructions of vm_ops.c
use insomniac.Base.{ℕ, Bool, false, Option, none, some, [], ◌∷◌, if◌then◌else◌, ◌==◌}
use insomniac.Vm.State.{Ptr, CellType, Object}
use insomniac.Vm.Run.{M, pure, need, ◌>>=◌}
use insomniac.Vm.Word
use insomniac.Vm.Heap.{deref, vm_alloc, is_type}
use insomniac.Vm.Exception.{vm_push, vm_pop, throw}
use insomniac.Vm.Ops.Logic.{push_bool}

unfoldable pub integer_of : Object → Option ℕ
integer_of (Object.fixnum n) = some n
integer_of _ = none

unfoldable pub load_integer : Ptr → M ℕ
unfolding deref integer_of
load_integer p = do o ← deref p; need (integer_of o)

unfoldable pub both_numbers : Ptr → Ptr → M Bool
unfolding is_type
both_numbers num1 num2 = do
  first ← is_type num1 CellType.fixnum
  if first then is_type num2 CellType.fixnum else pure false

-- the macro NUMERIC_OP
unfoldable pub numeric_op : (ℕ → ℕ → Option ℕ) → M (Unit {0})
unfolding vm_pop both_numbers load_integer vm_alloc vm_push
numeric_op op = do
  num2 ← vm_pop
  num1 ← vm_pop
  numbers ← both_numbers num1 num2
  if numbers
      then (do
        a ← load_integer num1
        b ← load_integer num2
        value ← need (op a b)
        result ← vm_alloc (Object.fixnum value)
        vm_push result)
      else throw "Attempt to calculate with non-number\n" (num1 ∷ num2 ∷ [])

-- the macro NUMERIC_LOGIC
unfoldable pub numeric_logic : (ℕ → ℕ → Bool) → M (Unit {0})
unfolding vm_pop both_numbers load_integer push_bool
numeric_logic op = do
  num2 ← vm_pop
  num1 ← vm_pop
  numbers ← both_numbers num1 num2
  if numbers
      then (do a ← load_integer num1; b ← load_integer num2; push_bool (op a b))
      else throw "Attempt to compare with non-number\n" (num1 ∷ num2 ∷ [])

unfoldable pub op_add : M (Unit {0})
unfolding numeric_op Word.add
op_add = numeric_op (λ a b. some (Word.add a b))

unfoldable pub op_sub : M (Unit {0})
unfolding numeric_op Word.sub
op_sub = numeric_op (λ a b. some (Word.sub a b))

unfoldable pub op_mul : M (Unit {0})
unfolding numeric_op Word.mul
op_mul = numeric_op (λ a b. some (Word.mul a b))

unfoldable pub op_div : M (Unit {0})
unfolding numeric_op Word.div
op_div = numeric_op Word.div

unfoldable pub op_mod : M (Unit {0})
unfolding numeric_op Word.rem
op_mod = numeric_op Word.rem

unfoldable pub op_numeric_equal : M (Unit {0})
unfolding numeric_logic
op_numeric_equal = numeric_logic (λ a b. a == b)

unfoldable pub op_numeric_lt : M (Unit {0})
unfolding numeric_logic
op_numeric_lt = numeric_logic Word.lt

unfoldable pub op_numeric_gt : M (Unit {0})
unfolding numeric_logic
op_numeric_gt = numeric_logic (λ a b. Word.lt b a)
