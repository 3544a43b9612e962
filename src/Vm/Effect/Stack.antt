-- ===== src/Vm/Effect/Stack.antt =====
-- vm_stack.c and the stack of vm_core.c: what the shuffles do, and what a pop of nothing does.
use insomniac.Base.{◌≡◌, ◌≢◌, List, [], ◌∷◌, arith, false, ◌==◌}
use insomniac.Vm.State.{Ptr, null, Vm}
use insomniac.Vm.Run.{done, fault, ◌>>=◌, ◌>>◌}
use insomniac.Vm.Effect.{with_stack}
use insomniac.Vm.Triple.{Holds, Triple, Triple-bind}
use insomniac.Vm.WellFormed.{IsWellFormed}
use insomniac.Vm.WellFormed.Raise.{throw_fatal-never}
use insomniac.Vm.Exception.{vm_pop}
use insomniac.Vm.Ops.Stack.{op_swap, op_rot, op_dup_ref, op_drop}

pub present : {p : Ptr} → p ≢ null → (p == null) ≡ false
present h = ground arith

pub vm_pop-cons :
    (p : Ptr) (s : List Ptr) (vm : Vm)
    → p ≢ null
    → vm_pop (with_stack (p ∷ s) vm) ≡ done p (with_stack s vm)
unfolding vm_pop ◌>>=◌
vm_pop-cons p s vm h = ground arith

fault-never : {P : Vm → Type 0} (A : Type 0) → Triple P (fault {A = A}) (λ _ _. ⊥)
unfolding fault
fault-never A = record { at = λ vm h. tt }

-- A pop of the empty stack of a well-formed machine does not return.
pub vm_pop-nil :
    (vm : Vm) → IsWellFormed (with_stack [] vm) → Holds (λ _ _. ⊥) (vm_pop (with_stack [] vm))
unfolding vm_pop ◌>>=◌
vm_pop-nil vm w =
    (Triple-bind {R = λ _. IsWellFormed} _ _ (throw_fatal-never "Stack Under Run!" [])
        λ _. fault-never Ptr).at
      _ w

module _ (a b : Ptr) (s : List Ptr) (vm : Vm) (ha : a ≢ null) (hb : b ≢ null) where
  pub op_swap_lem : op_swap (with_stack (a ∷ b ∷ s) vm) ≡ done tt (with_stack (b ∷ a ∷ s) vm)
  unfolding op_swap ◌>>=◌
  op_swap_lem = ground arith

  -- Two swaps leave the machine as it was.
  pub op_swap-op_swap :
      (op_swap >> op_swap) (with_stack (a ∷ b ∷ s) vm) ≡ done tt (with_stack (a ∷ b ∷ s) vm)
  unfolding op_swap ◌>>=◌
  op_swap-op_swap = ground arith

  module _ (c : Ptr) (hc : c ≢ null) where
    pub op_rot_lem :
        op_rot (with_stack (a ∷ b ∷ c ∷ s) vm) ≡ done tt (with_stack (b ∷ c ∷ a ∷ s) vm)
    unfolding op_rot ◌>>=◌
    op_rot_lem = ground arith

    -- Three rotations of three objects that are not null leave the machine as it was.
    pub op_rot-op_rot-op_rot :
        (op_rot >> op_rot >> op_rot) (with_stack (a ∷ b ∷ c ∷ s) vm)
        ≡ done tt (with_stack (a ∷ b ∷ c ∷ s) vm)
    unfolding op_rot ◌>>=◌
    op_rot-op_rot-op_rot = ground arith

-- A copy that is dropped leaves the machine as it was.
pub op_drop-op_dup_ref :
    (a : Ptr) (s : List Ptr) (vm : Vm)
    → a ≢ null
    → (op_dup_ref >> op_drop) (with_stack (a ∷ s) vm) ≡ done tt (with_stack (a ∷ s) vm)
unfolding op_dup_ref op_drop ◌>>=◌
op_drop-op_dup_ref a s vm ha = ground arith
