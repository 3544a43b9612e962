-- ===== src/Vm/Effect/Math.antt =====
-- vm_math.h: arithmetic on numbers, and what is thrown for anything else.
use insomniac.Base.{ℕ, ◌≡◌, ◌≢◌, List, [], ◌∷◌, arith, false, none, some, Option, Bool, ◌+◌, ◌&&◌}
use insomniac.Vm.State.{Ptr, null, Vm, Object, CellType, has_type, update}
use insomniac.Vm.Run.{done, ◌>>=◌, undefined}
use insomniac.Vm.Exception.{throw}
use insomniac.Vm.Effect.{with_stack}
use insomniac.Vm.Effect.Logic.{truth}
use insomniac.Vm.Ops.Math.{numeric_op, numeric_logic}

-- the machine after an object is put at the next address
abbrev pub allocated : Object → Vm → Vm
allocated o vm = record vm { objects = update vm.objects vm.next o; next = vm.next + 1 }

module _ (p q : Ptr) (s : List Ptr) (vm : Vm) (hp : p ≢ null) (hq : q ≢ null) where
  module _ (a b : ℕ) (ha : vm.objects p ≡ some (Object.fixnum a))
      (hb : vm.objects q ≡ some (Object.fixnum b)) where
    -- The topmost number is the second operand; the result is a new object.
    pub numeric_op_lem :
        (op : ℕ → ℕ → Option ℕ) (c : ℕ)
        → op a b ≡ some c
        → numeric_op op (with_stack (q ∷ p ∷ s) vm)
          ≡ done tt (with_stack (vm.next ∷ s) (allocated (Object.fixnum c) vm))
    unfolding numeric_op ◌>>=◌
    numeric_op_lem op c h = ground arith

    pub numeric_op-trap :
        (op : ℕ → ℕ → Option ℕ)
        → op a b ≡ none
        → numeric_op op (with_stack (q ∷ p ∷ s) vm) ≡ undefined
    unfolding numeric_op ◌>>=◌
    numeric_op-trap op h = ground arith

    pub numeric_logic_lem :
        (op : ℕ → ℕ → Bool)
        → numeric_logic op (with_stack (q ∷ p ∷ s) vm)
          ≡ done tt (with_stack (truth (op a b) vm ∷ s) vm)
    unfolding numeric_logic ◌>>=◌
    numeric_logic_lem op = ground arith

  -- If one of the two operands of an arithmetic instruction is no number, nothing is computed:
  -- the instruction throws both operands, in the order in which they were pushed, with the rest
  -- of the stack left.
  pub numeric_op-throw :
      (a b : Object) (op : ℕ → ℕ → Option ℕ)
      → vm.objects p ≡ some a
      → vm.objects q ≡ some b
      → (has_type a CellType.fixnum && has_type b CellType.fixnum) ≡ false
      → numeric_op op (with_stack (q ∷ p ∷ s) vm)
        ≡ throw "Attempt to calculate with non-number\n" (p ∷ q ∷ []) (with_stack s vm)
  unfolding numeric_op ◌>>=◌
  numeric_op-throw a b op ha hb h = ground arith
