-- ===== src/Vm/Loop.antt =====
-- The loop of vm_eval.c as a relation between machines, without fuel.
use insomniac.Base.{
  ℕ, zero, suc, ◌<◌, ◌≡◌, ◌⊎◌, subst, refl, sym, ◌∙◌, true, false, none, some, arith, inl, inr, ltb,
  Option-cases, Bool-cases,
}
use insomniac.Vm.State.{Env, Vm}
use insomniac.Vm.Run.{Outcome, done, aborted, undefined, diverged, ◌>>=◌, continue, diverge}
use insomniac.Vm.Opcode.{Op}
use insomniac.Vm.Eval.{External, step, eval_loop}
use insomniac.Vm.Triple.{Keeps, Holds}
use insomniac.Vm.WellFormed.{IsWellFormed}
use insomniac.Vm.WellFormed.Eval.{step-Keeps}

-- the position of the current environment lies in its code
abbrev pub IsRunning : Vm → Type 0
IsRunning vm = (e : Env) × (vm.envs vm.env ≡ some e) × (ltb e.ip e.length ≡ true)

-- it lies behind
abbrev pub IsHalted : Vm → Type 0
IsHalted vm = (e : Env) × (vm.envs vm.env ≡ some e) × (ltb e.ip e.length ≡ false)

-- `n` instructions that return, one after the other
pub data Rounds (io : External) : ℕ → Vm → Vm → Type 0 where
  rest : {vm : Vm} → Rounds io 0 vm vm
  round :
      {n : ℕ} {vm next last : Vm}
      → IsRunning vm
      → step io vm ≡ done tt next
      → Rounds io n next last
      → Rounds io (suc n) vm last

module _ (io : External) (fuel : ℕ) (vm : Vm) where
  eval_loop-running :
      IsRunning vm → eval_loop (suc fuel) io vm ≡ continue (step io vm) (λ _. eval_loop fuel io)
  unfolding eval_loop ◌>>=◌
  eval_loop-running (e, h, b) = ground (arith, h, b)

  eval_loop-halted : IsHalted vm → eval_loop (suc fuel) io vm ≡ done vm.exit_status vm
  unfolding eval_loop ◌>>=◌
  eval_loop-halted (e, h, b) = ground (arith, h, b)

  eval_loop-dangling : vm.envs vm.env ≡ none → eval_loop (suc fuel) io vm ≡ undefined
  unfolding eval_loop ◌>>=◌
  eval_loop-dangling h = ground (arith, h)

-- what the machine does next
pub vm-cases : (vm : Vm) → IsRunning vm ⊎ (IsHalted vm ⊎ (vm.envs vm.env ≡ none))
vm-cases vm = elim (Option-cases (vm.envs vm.env)) [
  | inl h ↦ inr (inr h)
  | inr (e, h) ↦ elim (Bool-cases (ltb e.ip e.length)) [
    | inl b ↦ inl (e, h, b)
    | inr b ↦ inr (inl (e, h, b))
  ]
]

module _ (io : External) where
  -- From a machine that comes to the end of its code after `n` instructions that return, the
  -- loop returns the exit status and that last machine, for any fuel above `n`.
  pub Rounds-eval_loop :
      {n : ℕ} {vm last : Vm} (fuel : ℕ)
      → n < fuel
      → Rounds io n vm last
      → IsHalted last
      → eval_loop fuel io vm ≡ done last.exit_status last
  unfolding continue
  Rounds-eval_loop zero below rounds halted = absurd (omega arith)
  Rounds-eval_loop (suc fuel) below rest halted = eval_loop-halted io fuel _ halted
  Rounds-eval_loop (suc fuel) below (round running one more) halted =
      eval_loop-running io fuel _ running ∙ rw one (Rounds-eval_loop fuel (omega arith) more halted)

  -- what a run of the loop that returns has gone through
  abbrev pub Completed : ℕ → ℕ → Vm → Vm → Type 0
  Completed fuel code vm last =
      (n : ℕ) × (n < fuel) × Rounds io n vm last × IsHalted last × (code ≡ last.exit_status)

  ended :
      (fuel code : ℕ) (vm last : Vm)
      → IsHalted vm
      → done vm.exit_status vm ≡ done code last
      → Completed (suc fuel) code vm last
  ended fuel code vm last halted e =
      subst (λ v. Completed (suc fuel) code vm v) (cc e) (0, omega arith, rest, halted, cc e)

  after :
      (fuel code : ℕ) (vm last : Vm) (r : Outcome (Unit {0}))
      → IsRunning vm
      → step io vm ≡ r
      → continue r (λ _. eval_loop fuel io) ≡ done code last
      → ((next : Vm) → eval_loop fuel io next ≡ done code last → Completed fuel code next last)
      → Completed (suc fuel) code vm last
  unfolding continue
  after fuel code vm last (done _ next) running one e more =
      let (n, below, rounds, halted, code_is) = more next e in
      (suc n, omega arith, round running one rounds, halted, code_is)
  after fuel code vm last (aborted x v) running one e more = absurd (cc e)
  after fuel code vm last undefined running one e more = absurd (cc e)
  after fuel code vm last diverged running one e more = absurd (cc e)

  -- If the loop returns, it has run instructions that all returned, each from a position inside
  -- the code, fewer of them than the fuel; the position of the last machine is not inside the
  -- code, and the value is its exit status.
  pub eval_loop-Rounds :
      (fuel code : ℕ) (vm last : Vm)
      → eval_loop fuel io vm ≡ done code last
      → Completed fuel code vm last
  unfolding eval_loop diverge
  eval_loop-Rounds zero code vm last h = absurd (cc h)
  eval_loop-Rounds (suc fuel) code vm last h = elim (vm-cases vm) [
    | inl running ↦
        after fuel code vm last (step io vm) running refl
          (sym (eval_loop-running io fuel vm running) ∙ h)
          λ next. eval_loop-Rounds fuel code next last
    | inr (inl halted) ↦
        ended fuel code vm last halted (sym (eval_loop-halted io fuel vm halted) ∙ h)
    | inr (inr dangling) ↦ absurd (cc (eval_loop-dangling io fuel vm dangling, h))
  ]

  module _ (keep : (o : Op) → Keeps IsWellFormed (io o)) where
    step-IsWellFormed :
        (vm next : Vm) → step io vm ≡ done tt next → IsWellFormed vm → IsWellFormed next
    step-IsWellFormed vm next one w =
        subst (Holds (λ _. IsWellFormed)) one ((step-Keeps io keep).at vm w)

    -- If the instructions that are given keep the invariant, a machine that is reached from a
    -- well-formed one by any number of instructions is well-formed.
    pub Rounds-IsWellFormed :
        {n : ℕ} {vm last : Vm} → Rounds io n vm last → IsWellFormed vm → IsWellFormed last
    Rounds-IsWellFormed rest w = w
    Rounds-IsWellFormed (round running one more) w =
        Rounds-IsWellFormed more (step-IsWellFormed _ _ one w)
