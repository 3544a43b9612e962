-- ===== src/Vm/Run.antt =====
-- Runs of machine code: what a C function that takes the machine does.
use insomniac.Base.{Option, none, some}
use insomniac.Vm.State.{Ptr, Vm}

-- `aborted` is `assert(0)` after an exception that no handler took, with the exception; `undefined`
-- is behaviour that C leaves open, such as a read out of bounds; `diverged` is a loop without end.
pub data Outcome (A : Type 0) : Type 0 where
  done : A → Vm → Outcome A
  aborted : Ptr → Vm → Outcome A
  undefined : Outcome A
  diverged : Outcome A

abbrev pub M : Type 0 → Type 0
M A = Vm → Outcome A

module _ {A : Type 0} where
  unfoldable pub pure : A → M A
  pure a vm = done a vm

  unfoldable pub fault : M A
  fault vm = undefined

  -- `assert(0)`
  unfoldable pub abort : Ptr → M A
  abort exception vm = aborted exception vm

  unfoldable pub diverge : M A
  diverge vm = diverged

  -- read a part of the state
  unfoldable pub gets : (Vm → A) → M A
  gets f vm = done (f vm) vm

  -- `none` is undefined behaviour
  unfoldable pub need : Option A → M A
  need none = fault
  need (some a) = pure a

unfoldable pub modify : (Vm → Vm) → M (Unit {0})
modify f vm = done tt (f vm)

module _ {A B : Type 0} where
  unfoldable pub continue : Outcome A → (A → M B) → Outcome B
  continue (done a vm) f = f a vm
  continue (aborted e vm) f = aborted e vm
  continue undefined f = undefined
  continue diverged f = diverged

  infixl 5 ◌>>=◌ ◌>>◌
  unfoldable pub ◌>>=◌ : M A → (A → M B) → M B
  unfolding continue pure fault abort diverge gets need modify
  ◌>>=◌ m f vm = continue (m vm) f

  abbrev pub ◌>>◌ : M A → M B → M B
  m >> n = m >>= λ _. n
