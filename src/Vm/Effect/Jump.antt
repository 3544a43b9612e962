-- ===== src/Vm/Effect/Jump.antt =====
-- vm_jump.c: jumps, calls and returns.
use insomniac.Base.{
  ℕ, ◌≡◌, ◌≢◌, ◌<◌, List, [], ◌∷◌, ◌++◌, arith, false, some, if◌then◌else◌, ◌+◌, ◌%◌, drop,
}
use insomniac.Vm.State.{Ptr, null, Vm, Env, Object, Bindings}
use insomniac.Vm.Run.{◌>>=◌, ◌>>◌}
use insomniac.Vm.Word.{word}
use insomniac.Vm.Triple.{Returns}
use insomniac.Vm.Effect.{with_stack}
use insomniac.Vm.Code.Bytes.{read_bytes-int_64}
use insomniac.Asm.Emit.{int_64}
use insomniac.Vm.Ops.Logic.{is_false}
use insomniac.Vm.Ops.Jump.{op_jnf, op_jmp, op_call, op_ret, op_tail_call_in, op_jin, op_adopt}

-- the position behind an operand of eight bytes
abbrev pub behind : Env → ℕ
behind e = (e.ip + 8) % word

module _ (e : Env) (vm : Vm) (n : ℕ) (rest : List ℕ) (current : vm.envs vm.env ≡ some e)
    (small : n < word) (code : drop e.ip e.code_ref ≡ int_64 n ++ rest) where
  -- A jump adds its operand to the position behind it.
  pub op_jmp_lem :
      Returns
        (λ _ vm'.
          (vm'.env ≡ vm.env) × (vm'.envs vm.env ≡ some (record e { ip = (behind e + n) % word })))
        (op_jmp vm)
  unfolding op_jmp ◌>>=◌
  op_jmp_lem = ground (arith, read_bytes-int_64 n rest small)

  -- Where the code at the position has a 64-bit operand, the conditional jump pops an object
  -- and goes on behind the operand for `#f`, and at the target for any other object.
  pub op_jnf_lem :
      (p : Ptr) (o : Object) (s : List Ptr)
      → p ≢ null
      → vm.objects p ≡ some o
      → Returns
          (λ _ vm'.
            (vm'.stack ≡ s)
            × (vm'.env ≡ vm.env)
            × (vm'.envs vm.env
                ≡ some (record e { ip = if is_false o then behind e else (behind e + n) % word })))
          (op_jnf (with_stack (p ∷ s) vm))
  unfolding op_jnf ◌>>=◌
  op_jnf_lem p o s hp holds = ground (arith, read_bytes-int_64 n rest small)

  -- A call pushes a closure of the caller, whose position stands behind the call, and goes on at the
  -- target in a new environment without bindings below the caller.
  pub op_call_lem :
      (s : List Ptr)
      → vm.env < vm.next
      → vm.env ≢ null
      → Returns
          (λ _ vm'.
            (vm'.stack ≡ vm.next ∷ s)
            × (vm'.objects vm.next ≡ some (Object.closure vm.env))
            × (vm'.envs vm.env ≡ some (record e { ip = behind e }))
            × (vm'.tables (vm.next + 1) ≡ some [])
            × (vm'.envs vm'.env
                ≡ some (record e {
                  ip = (behind e + n) % word;
                  bindings = vm.next + 1;
                  handler = false;
                  handler_addr = 0;
                  parent = vm.env;
                })))
          (op_call (with_stack s vm))
  unfolding op_call ◌>>=◌
  op_call_lem s low used = ground (arith, read_bytes-int_64 n rest small)

  -- Where the code at the position has a 64-bit operand, a call and the return of the callee
  -- lead behind the operand: to the stack of before the call, and to an environment that is
  -- equal to that of the caller but for the position.
  pub op_ret-op_call :
      (s : List Ptr)
      → vm.env < vm.next
      → vm.env ≢ null
      → Returns
          (λ _ vm'. (vm'.stack ≡ s) × (vm'.envs vm'.env ≡ some (record e { ip = behind e })))
          ((op_call >> op_ret) (with_stack s vm))
  unfolding op_call op_ret ◌>>=◌
  op_ret-op_call s low used = ground (arith, read_bytes-int_64 n rest small)

-- A return enters a copy of the environment of the closure, with its bindings and its parent.
pub op_ret_lem :
    (c q : Ptr) (e : Env) (s : List Ptr) (vm : Vm)
    → c ≢ null
    → vm.objects c ≡ some (Object.closure q)
    → vm.envs q ≡ some e
    → Returns
        (λ _ vm'. (vm'.stack ≡ s) × (vm'.env ≡ vm.next) × (vm'.envs vm'.env ≡ some e))
        (op_ret (with_stack (c ∷ s) vm))
unfolding op_ret ◌>>=◌
op_ret_lem c q e s vm hc holds env = ground arith

-- A tail call takes the closure off the stack, swaps the two objects below it, pushes no
-- closure to return to, and goes on at the position of the closure in a new environment without
-- bindings, below a copy of that of the closure.
pub op_tail_call_in_lem :
    (c a b q : Ptr) (e : Env) (s : List Ptr) (vm : Vm)
    → c ≢ null
    → a ≢ null
    → b ≢ null
    → vm.objects c ≡ some (Object.closure q)
    → vm.envs q ≡ some e
    → 0 < vm.next
    → Returns
        (λ _ vm'.
          (vm'.stack ≡ b ∷ a ∷ s)
          × (vm'.envs vm'.env
              ≡ some (record e {
                bindings = vm.next + 1;
                handler = false;
                handler_addr = 0;
                parent = vm.next;
              }))
          × (vm'.envs vm.next ≡ some e)
          × (vm'.tables (vm.next + 1) ≡ some []))
        (op_tail_call_in (with_stack (c ∷ a ∷ b ∷ s) vm))
unfolding op_tail_call_in ◌>>=◌
op_tail_call_in_lem c a b q e s vm hc ha hb holds env used = ground arith

-- A jump into a closure takes the code, the position and the handler of the closure, and keeps
-- the bindings and the parent of the current environment.
pub op_jin_lem :
    (c q : Ptr) (e d : Env) (s : List Ptr) (vm : Vm)
    → c ≢ null
    → vm.objects c ≡ some (Object.closure q)
    → vm.envs q ≡ some e
    → vm.envs vm.env ≡ some d
    → vm.env < vm.next
    → Returns
        (λ _ vm'.
          (vm'.stack ≡ s)
          × (vm'.envs vm'.env ≡ some (record e { bindings = d.bindings; parent = d.parent })))
        (op_jin (with_stack (c ∷ s) vm))
unfolding op_jin ◌>>=◌
op_jin_lem c q e d s vm hc holds env current low = ground arith

-- `adopt` of a child closure by a parent closure pushes a new closure with the code, the
-- position and the handler of the child, and the bindings and the parent of the parent.
pub op_adopt_lem :
    (c p q r : Ptr) (child parent : Env) (t : Bindings) (s : List Ptr) (vm : Vm)
    → p ≢ null
    → c ≢ null
    → vm.objects c ≡ some (Object.closure q)
    → vm.objects p ≡ some (Object.closure r)
    → vm.envs q ≡ some child
    → vm.envs r ≡ some parent
    → vm.tables child.bindings ≡ some t
    → r < vm.next
    → Returns
        (λ _ vm'.
          (vm'.stack ≡ (vm.next + 2) ∷ s)
          × (vm'.objects (vm.next + 2) ≡ some (Object.closure (vm.next + 1)))
          × (vm'.envs (vm.next + 1)
              ≡ some (record child { bindings = parent.bindings; parent = parent.parent })))
        (op_adopt (with_stack (p ∷ c ∷ s) vm))
unfolding op_adopt ◌>>=◌
op_adopt_lem c p q r child parent t s vm hp hc holds_c holds_p env_c env_p table low = ground arith
