-- ===== src/Vm/Effect/Exception.antt =====
-- vm_exception.c: where an exception goes.
use Prim.Native.String.{String}
use insomniac.Base.{ℕ, zero, suc, ◌≡◌, ◌≢◌, ◌<◌, ◌≤◌, refl, List, ◌∷◌, arith, false, true, some}
use insomniac.Vm.State.{Ptr, null, Vm, Env}
use insomniac.Vm.Run.{Outcome, done, M, pure, gets, abort, ◌>>=◌, ◌>>◌}
use insomniac.Vm.Triple.{Returns-gets, Returns-then, Aborts}
use insomniac.Vm.WellFormed.{IsWellFormed}
use insomniac.Vm.Exception.{raise, find_handler, handle_exception, throw, drop_top}
use insomniac.Vm.Effect.Raise.{Grown, CanRaise, IsRaised, raise-Grown}

-- From `p` outwards, the nearest environment with a handler is `q`, which holds `h`.
pub data Handles (vm : Vm) (q : Ptr) (h : Env) : Ptr → Type 0 where
  here : q ≢ null → vm.envs q ≡ some h → h.handler ≡ true → Handles vm q h q
  outer :
      {p : Ptr} (e : Env)
      → p ≢ null
      → vm.envs p ≡ some e
      → e.handler ≡ false
      → Handles vm q h e.parent
      → Handles vm q h p

-- From `p` outwards no environment has a handler.
pub data Unhandled (vm : Vm) : Ptr → Type 0 where
  end : Unhandled vm null
  outer :
      {p : Ptr} (e : Env)
      → p ≢ null
      → vm.envs p ≡ some e
      → e.handler ≡ false
      → Unhandled vm e.parent
      → Unhandled vm p

module _ (start : Vm) (w : IsWellFormed start) (msg : String) (objs : List Ptr)
    (c : CanRaise msg start) where
  find_handler-Unhandled :
      (vm : Vm) (s : List Ptr)
      → Grown start s vm
      → (n : ℕ) {p : Ptr} → Unhandled start p
      → p < n
      → find_handler n p vm ≡ done null vm
  unfolding find_handler ◌>>=◌ pure
  find_handler-Unhandled vm s g zero d low = absurd (omega arith)
  find_handler-Unhandled vm s g (suc n) end low = refl
  find_handler-Unhandled vm s g (suc n) (outer {p} e used env off d) low = ground (
    arith,
    g.3 p (w.chained p e env).1,
    find_handler-Unhandled vm s g n d (omega (arith, w.chained p e env)),
  )

-- The exception is on the stack, on top of what was there. The current environment is new: a copy of
-- `h` at the address of its handler, with the handler off. The environments of before, that of the
-- handler among them, are as they were.
pub record Handling (start : Vm) (built : Ptr → Vm → Type 0) (h : Env) (vm : Vm) : Type 0 where
  pub exception : Ptr
  pub raised : built exception vm
  pub stack : vm.stack ≡ exception ∷ start.stack
  pub current : vm.envs vm.env ≡ some (record h { handler = false; ip = h.handler_addr })
  pub new : start.next ≤ vm.env
  pub kept : (p : Ptr) → p < start.next → vm.envs p ≡ start.envs p

-- what entering the handler of `h` changes
record Entered (h : Env) (vm vm' : Vm) : Type 0 where
  objects : vm'.objects ≡ vm.objects
  blocks : vm'.blocks ≡ vm.blocks
  stack : vm'.stack ≡ vm.stack
  next : vm.next ≤ vm'.next
  envs : (p : Ptr) → p < vm.next → vm'.envs p ≡ vm.envs p
  new : vm'.env ≡ vm.next
  current : vm'.envs vm'.env ≡ some (record h { handler = false; ip = h.handler_addr })

module _ (start : Vm) (w : IsWellFormed start) (msg : String) (objs : List Ptr)
    (c : CanRaise msg start) where
  -- where the search for the handler starts, with its bound
  abbrev Searching : Ptr → Ptr → ℕ → Vm → Type 0
  Searching x p bound vm =
      (Grown start (x ∷ start.stack) vm × IsRaised start w msg objs c x vm)
      × (p ≡ start.env)
      × (start.env < suc bound)

  -- the part of a throw in front of the search
  up_to_search :
      (T : Outcome (Unit {0}) → Type 0) (f : Ptr → Ptr → ℕ → M (Unit {0}))
      → ((x p : Ptr) (bound : ℕ) (vm : Vm) → Searching x p bound vm → T (f x p bound vm))
      → T (
          (do
            x ← raise msg objs
            p ← gets (λ vm. vm.env)
            bound ← gets (λ vm. vm.next)
            f x p bound)
            start)
  up_to_search T f next =
      let R : Ptr → Vm → Type 0 =
        λ x vm. (Grown start (x ∷ start.stack) vm × IsRaised start w msg objs c x vm) in
      Returns-then R T _ _ start (raise-Grown start w msg objs c) λ x vm r.
        let at_env : Ptr → Vm → Type 0 = λ p vm. (R x vm × (p ≡ start.env)) in
        Returns-then at_env T _ _ vm (Returns-gets at_env _ vm (r, r.0.0)) λ p vm (r, e).
          Returns-then (Searching x p) T _ _ vm
            (Returns-gets (Searching x p) _ vm (r, e, omega (arith, w.current, r.0.2))) (next x p)

  -- In a well-formed machine whose current environment exists, a throw of a message that fits
  -- in memory, where no environment from the current one outwards has a handler, ends in
  -- `assert(0)`.
  pub throw-Unhandled : Unhandled start start.env → Aborts (throw msg objs start)
  unfolding handle_exception
  throw-Unhandled d = up_to_search Aborts _ λ x p bound vm ((g, raised), e, low).
      Returns-then (λ r vm. r ≡ null) Aborts _ _ vm
        (rw (e, find_handler-Unhandled start w msg objs c vm (x ∷ start.stack) g (suc bound) d low)
          refl)
        λ r vm e. rw e (give_up x vm)
    where
      give_up : (x : Ptr) (vm : Vm) → Aborts ((drop_top >> abort {A = Unit {0}} x) vm)
      give_up x vm = unfold drop_top ◌>>=◌ in tt
