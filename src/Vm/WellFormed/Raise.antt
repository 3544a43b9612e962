-- ===== src/Vm/WellFormed/Raise.antt =====
-- The invariant under exceptions and under a pop of the stack.
use Prim.Native.String.{String}
use insomniac.Base.{
  ℕ, zero, suc, inl, inr, ◌<◌, ◌≡◌, refl, Bool, true, List, [], ◌∷◌, arith, if◌then◌else◌, ◌==◌,
  length, Bool-cases, ap,
}
use insomniac.Vm.State.{Ptr, null, Vm}
use insomniac.Vm.Run.{M, pure, gets, ◌>>=◌, abort, ◌>>◌, modify}
use insomniac.Vm.Triple.{
  Triple, Keeps, Triple-bind, Triple-pre, Keeps-bind, Keeps-gets, Keeps-pure, Keeps-if, Keeps-abort,
  Triple-abort, Keeps-fault,
}
use insomniac.Vm.Exception.{
  raise, find_handler, drop_top, enter_handler, handle_exception, pop_from, vm_pop,
}
use insomniac.Vm.WellFormed.{IsWellFormed}
use insomniac.Vm.WellFormed.Frame.{
  Allocated, Linked, Newest, clone_env-Allocated, clone_env-Keeps, clone_env-Newest, cons_all-Keeps,
  drop_top-Keeps, enter_handler-Keeps, frame_rules, load_env-Linked, load_env-below, pop_env-Keeps,
  push_env-Keeps, set_current-Keeps, store_env-Allocated, store_env-Keeps, vm_push-Keeps,
}

pub raise-Keeps : (msg : String) (objs : List Ptr) → Keeps IsWellFormed (raise msg objs)
unfolding raise
raise-Keeps msg objs = search frame_rules depth 12

-- Parents stand at smaller addresses, so that the search ends within any larger number of rounds.
pub find_handler-Keeps : (n : ℕ) (p : Ptr) → p < n → Keeps IsWellFormed (find_handler n p)
unfolding find_handler
find_handler-Keeps zero p h = absurd (omega arith)
find_handler-Keeps (suc n) p h = elim (Bool-cases (p == null)) [
  | inl e ↦ rw e (Keeps-pure null)
  | inr e ↦ rw e (
      Triple-bind _ _ (load_env-Linked p) λ f. record {
        at = λ vm (w, below, used).
            (Keeps-if f.handler _ _ (Keeps-pure p) (find_handler-Keeps n f.parent (omega arith))).at
              vm w;
      })
]

-- Reads the current environment and the bound, and goes on with what needs one below the other.
pub search-Keeps :
    {A : Type 0} (f : Ptr → ℕ → M A)
    → ((p : Ptr) (bound : ℕ) → p < suc bound → Keeps IsWellFormed (f p bound))
    → Keeps IsWellFormed (do p ← gets (λ vm. vm.env); bound ← gets (λ vm. vm.next); f p bound)
unfolding gets ◌>>=◌
search-Keeps f keep = record {
  at = λ vm w. (keep vm.env vm.next (omega (arith, w.current))).at vm w;
}

leave-Keeps :
    (handler exception : Ptr)
    → Keeps IsWellFormed
        (if handler == null then drop_top >> abort exception else enter_handler handler)
leave-Keeps handler exception = search (frame_rules, Keeps-abort)

-- An exception leaves the invariant, and the search for its handler ends.
pub handle_exception-Keeps :
    (fatal : Bool) (msg : String) (objs : List Ptr)
    → Keeps IsWellFormed (handle_exception fatal msg objs)
unfolding handle_exception
handle_exception-Keeps fatal msg objs = Keeps-bind _ _ (raise-Keeps msg objs) λ exception.
    search-Keeps
      (λ current bound.
        (if fatal then pure null else find_handler (suc bound) current) >>= λ handler.
        if handler == null then drop_top >> abort exception else enter_handler handler)
      λ current bound h.
        Keeps-bind _ _
          (Keeps-if fatal _ _ (Keeps-pure null) (find_handler-Keeps (suc bound) current h))
          λ handler. leave-Keeps handler exception

-- A fatal exception does not return.
pub throw_fatal-never :
    {Q : Unit {0} → Vm → Type 0} (msg : String) (objs : List Ptr)
    → Triple IsWellFormed (handle_exception true msg objs) Q
unfolding handle_exception
throw_fatal-never {Q} msg objs = Triple-bind _ _ (raise-Keeps msg objs) λ exception.
    Triple-bind _ _ (Keeps-gets _) λ current. Triple-bind _ _ (Keeps-gets _) λ bound.
      Triple-bind {R = λ h vm. IsWellFormed vm × (h ≡ null)} _ _
        (unfold pure in record { at = λ vm w. (w, refl) })
        λ handler. record { at = λ vm (w, e). rw e ((give_up exception).at vm w) }
  where
    give_up : (exception : Ptr) → Triple IsWellFormed (drop_top >> abort exception) Q
    give_up exception = Triple-bind _ _ drop_top-Keeps λ _. Triple-abort exception

pop_from-Keeps :
    (s : List Ptr)
    → Triple (λ vm. IsWellFormed vm × (vm.stack ≡ s)) (pop_from s) (λ _. IsWellFormed)
unfolding pop_from modify
pop_from-Keeps [] =
    Triple-bind _ _ (Triple-pre (throw_fatal-never "Stack Under Run!" []) λ vm h. h.0)
      λ _. Keeps-fault
pop_from-Keeps (obj ∷ rest) = Triple-bind _ _ checked λ _.
    Triple-bind _ _
      (record {
        at = λ vm (w, e). record {
          counted = omega (arith, w.counted, ap length e);
          current = w.current;
          chained = w.chained;
        };
      })
      λ _. Keeps-pure obj
  where
    checked :
        Keeps
          (λ vm. IsWellFormed vm × (vm.stack ≡ obj ∷ rest))
          (if obj == null then handle_exception true "Null found in pop." [] else pure tt)
    checked =
        Keeps-if (obj == null) _ _
          (Triple-pre (throw_fatal-never "Null found in pop." []) λ vm h. h.0) (Keeps-pure tt)

-- A pop of an empty stack, or of a null, aborts.
pub vm_pop-Keeps : Keeps IsWellFormed vm_pop
unfolding vm_pop ◌>>=◌ gets
vm_pop-Keeps = record { at = λ vm w. (pop_from-Keeps vm.stack).at vm (w, refl) }

pub ruleset machine_rules = (frame_rules, handle_exception-Keeps, vm_pop-Keeps)
