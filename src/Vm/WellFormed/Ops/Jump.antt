-- ===== src/Vm/WellFormed/Ops/Jump.antt =====
-- The invariant under jumps, calls and the instructions for exceptions.
use insomniac.Base.{ℕ, true, false, refl, arith, ◌<◌}
use insomniac.Vm.State.{Ptr, Env}
use insomniac.Vm.Run.{pure, ◌>>=◌, ◌>>◌}
use insomniac.Vm.Triple.{
  Triple, Keeps, Triple-bind, Triple-pre, Triple-mono, Keeps-bind, Keeps-gets,
}
use insomniac.Vm.WellFormed.{IsWellFormed}
use insomniac.Vm.WellFormed.Frame.{
  load_env-Linked, store_env-Keeps, store_env-Allocated, clone_env-Allocated, clone_env-Newest,
  load_env-below, Newest, set_current-Keeps, Allocated,
}
use insomniac.Vm.WellFormed.Raise.{machine_rules}
use insomniac.Vm.WellFormed.Ops.Code.{code_rules, parse_int-Keeps}
use insomniac.Vm.WellFormed.Heap.{load_env-Keeps}
use insomniac.Vm.Heap.{store_env}
use insomniac.Vm.Exception.{set_current}
use insomniac.Vm.Ops.Jump.{
  op_jnf, op_jmp, op_call, load_closure, adopt_env, op_adopt, proc_env, op_proc, jump_env, op_jin,
  enter_copy, op_ret, op_call_in, op_tail_call_in, op_continue, op_restore,
}

pub op_jnf-Keeps : Keeps IsWellFormed op_jnf
unfolding op_jnf
op_jnf-Keeps = search code_rules depth 12

pub op_jmp-Keeps : Keeps IsWellFormed op_jmp
unfolding op_jmp
op_jmp-Keeps = search code_rules

pub op_call-Keeps : Keeps IsWellFormed op_call
unfolding op_call
op_call-Keeps = search code_rules depth 12

load_closure-Keeps : (p : Ptr) → Keeps IsWellFormed (load_closure p)
unfolding load_closure
load_closure-Keeps p = search machine_rules

-- the copy of an environment with another position, bindings and parent below it
rewritten-Allocated :
    (env : Ptr) (e : Env)
    → Triple (λ vm. Newest env vm × (e.parent < env)) (store_env env e >> pure env) Allocated
unfolding pure
rewritten-Allocated env e =
    Triple-bind _ _
      (Triple-pre (store_env-Allocated env e) λ vm (n, below). (n.0, below, omega (arith, n.1)))
      λ _. record { at = λ vm a. a }

adopt_env-Allocated : (child parent : Ptr) → Triple IsWellFormed (adopt_env child parent) Allocated
unfolding adopt_env
adopt_env-Allocated child parent = Triple-bind _ _ (clone_env-Newest child true) λ env.
    Triple-bind _ _ (load_env-Keeps env)
      λ e. Triple-bind _ _ (load_env-below env parent) λ p. rewritten-Allocated env _

adopt_env-Keeps : (child parent : Ptr) → Keeps IsWellFormed (adopt_env child parent)
adopt_env-Keeps child parent = Triple-mono (adopt_env-Allocated child parent) λ p vm a. a.0

pub op_adopt-Keeps : Keeps IsWellFormed op_adopt
unfolding op_adopt
op_adopt-Keeps = search (machine_rules, load_closure-Keeps, adopt_env-Keeps) depth 20

proc_env-Keeps : (target : ℕ) → Keeps IsWellFormed (proc_env target)
unfolding proc_env
proc_env-Keeps target = Keeps-bind _ _ (Keeps-gets _) λ current.
    Triple-bind _ _ (clone_env-Newest current false) λ env.
      Triple-bind _ _ (load_env-below env env)
        λ e. Triple-mono (rewritten-Allocated env _) λ p vm a. a.0

pub op_proc-Keeps : Keeps IsWellFormed op_proc
unfolding op_proc
op_proc-Keeps = search (code_rules, proc_env-Keeps) depth 12

jump_env-Allocated : (target : Ptr) → Triple IsWellFormed (jump_env target) Allocated
unfolding jump_env
jump_env-Allocated target = Triple-bind _ _ (Keeps-gets _) λ current.
    Triple-bind _ _ (clone_env-Newest target false) λ env.
      Triple-bind _ _ (load_env-Keeps env)
        λ e. Triple-bind _ _ (load_env-below env current) λ old. rewritten-Allocated env _

jump_to-Keeps : (target : Ptr) → Keeps IsWellFormed (jump_env target >>= set_current)
jump_to-Keeps target = Triple-bind _ _ (jump_env-Allocated target) set_current-Keeps

pub op_jin-Keeps : Keeps IsWellFormed op_jin
unfolding op_jin
op_jin-Keeps = search (machine_rules, load_closure-Keeps, jump_to-Keeps) depth 12

enter_copy-Keeps : (closure : Ptr) → Keeps IsWellFormed (enter_copy closure)
unfolding enter_copy
enter_copy-Keeps closure =
    Keeps-bind _ _ (load_closure-Keeps closure)
      λ target. Triple-bind _ _ (clone_env-Allocated target false) set_current-Keeps

ruleset call_rules = (code_rules, enter_copy-Keeps)

pub op_ret-Keeps : Keeps IsWellFormed op_ret
unfolding op_ret
op_ret-Keeps = search call_rules depth 12

pub op_call_in-Keeps : Keeps IsWellFormed op_call_in
unfolding op_call_in
op_call_in-Keeps = search call_rules depth 20

pub op_tail_call_in-Keeps : Keeps IsWellFormed op_tail_call_in
unfolding op_tail_call_in
op_tail_call_in-Keeps = search call_rules depth 20

pub op_continue-Keeps : Keeps IsWellFormed op_continue
unfolding op_continue
op_continue-Keeps = Keeps-bind _ _ parse_int-Keeps λ target.
    Keeps-bind _ _ (Keeps-gets _)
      λ p. Triple-bind _ _ (load_env-Linked p) λ e. store_env-Keeps p e _ refl

pub op_restore-Keeps : Keeps IsWellFormed op_restore
unfolding op_restore
op_restore-Keeps =
    Keeps-bind _ _ (Keeps-gets _)
      λ p. Triple-bind _ _ (load_env-Linked p) λ e. store_env-Keeps p e _ refl
