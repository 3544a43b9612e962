-- ===== src/Vm/WellFormed/Frame.antt =====
-- The invariant under the stack, the environments and the exceptions.
use insomniac.Base.{
  ◌+◌, ◌-◌, ◌<◌, ◌≡◌, refl, Bool, true, false, Option, none, some, List, [], ◌∷◌, arith,
  if◌then◌else◌, ◌==◌, length,
}
use insomniac.Vm.State.{Ptr, null, Env, Vm}
use insomniac.Vm.Run.{pure, gets, need, ◌>>=◌, modify}
use insomniac.Vm.Triple.{
  Holds, Triple, Keeps, Triple-bind, Triple-pre, Triple-mono, Keeps-modify, Keeps-bind, Keeps-gets,
  Keeps-pure, Keeps-if,
}
use insomniac.Vm.Heap.{load_env, load_table, allocate_env, allocate_table, store_env}
use insomniac.Vm.Exception.{
  vm_push, clone_env, set_current, push_env, pop_env, cons_all, drop_top, enter_handler, blank_env,
  pop_cell,
}
use insomniac.Vm.WellFormed.{IsWellFormed}
use insomniac.Vm.WellFormed.Heap.{
  heap_rules, load_table-Keeps, load_env-Keeps, allocate_table-Keeps, cons-Keeps,
}

pub vm_push-Keeps : (p : Ptr) → Keeps IsWellFormed (vm_push p)
unfolding vm_push
vm_push-Keeps p =
    Keeps-modify _
      λ vm w. record { counted = omega arith; current = w.current; chained = w.chained }

length-pop_cell : (s : List Ptr) → length (pop_cell s) ≡ length s - 1
length-pop_cell [] = refl
length-pop_cell (p ∷ s) = omega arith

pub drop_top-Keeps : Keeps IsWellFormed drop_top
unfolding drop_top
drop_top-Keeps = Keeps-modify _ λ vm w. record {
  counted = omega (arith, length-pop_cell vm.stack, w.counted);
  current = w.current;
  chained = w.chained;
}

-- the environment is linked as the invariant asks
abbrev pub Linked : Ptr → Env → Vm → Type 0
Linked p e vm = IsWellFormed vm × (e.parent < p) × (p < vm.next)

abbrev pub Allocated : Ptr → Vm → Type 0
Allocated p vm = IsWellFormed vm × (p < vm.next)

pub load_env-Linked : (p : Ptr) → Triple IsWellFormed (load_env p) (Linked p)
unfolding load_env ◌>>=◌
load_env-Linked p = record { at = λ vm w. loaded vm w (vm.envs p) refl }
  where
    loaded :
        (vm : Vm)
        → IsWellFormed vm
        → (o : Option Env) → vm.envs p ≡ o
        → Holds (Linked p) (need o vm)
    loaded vm w none h = tt
    loaded vm w (some e) h = (w, (w.chained p e h).0, (w.chained p e h).1)

-- the last address that was given out
abbrev pub Newest : Ptr → Vm → Type 0
Newest p vm = IsWellFormed vm × (vm.next ≡ p + 1)

allocate_env-Newest :
    (e : Env) → Triple (λ vm. IsWellFormed vm × (e.parent < vm.next)) (allocate_env e) Newest
unfolding allocate_env ◌>>=◌
allocate_env-Newest e = record {
  at = λ vm (w, below). (
    record {
      counted = w.counted;
      current = omega (arith, w.current);
      chained = λ q d h. ground (arith, w.chained q d);
    },
    refl,
  );
}

-- an environment that is read below the newest address
pub load_env-below :
    (p q : Ptr) → Triple (Newest p) (load_env q) (λ e vm. Newest p vm × (e.parent < p))
unfolding load_env ◌>>=◌
load_env-below p q = record { at = λ vm n. loaded vm n (vm.envs q) refl }
  where
    loaded :
        (vm : Vm)
        → Newest p vm
        → (o : Option Env) → vm.envs q ≡ o
        → Holds (λ e vm'. Newest p vm' × (e.parent < p)) (need o vm)
    loaded vm n none h = tt
    loaded vm n (some e) h = (n, omega (arith, n.0.chained q e h, n.1))

pub store_env-Allocated :
    (p : Ptr) (e : Env)
    → Triple
        (λ vm. IsWellFormed vm × (e.parent < p) × (p < vm.next))
        (store_env p e)
        (λ _. Allocated p)
unfolding store_env modify
store_env-Allocated p e = record {
  at = λ vm (w, below, used). (
    record {
      counted = w.counted;
      current = w.current;
      chained = λ q d h. ground (arith, w.chained q d);
    },
    used,
  );
}

-- a change that keeps the parent
pub store_env-Keeps :
    (p : Ptr) (e d : Env)
    → d.parent ≡ e.parent
    → Triple (Linked p e) (store_env p d) (λ _. IsWellFormed)
store_env-Keeps p e d same =
    Triple-mono (Triple-pre (store_env-Allocated p d) λ vm (w, below, used). (w, omega arith, used))
      λ _ vm (w, used). w

pub set_current-Keeps : (p : Ptr) → Triple (Allocated p) (set_current p) (λ _. IsWellFormed)
unfolding set_current modify
set_current-Keeps p = record {
  at = λ vm (w, used). record { counted = w.counted; current = used; chained = w.chained };
}

share-Linked :
    (p : Ptr) (e : Env) (cow : Bool)
    → Keeps (Linked p e) (if cow then load_table e.bindings >>= allocate_table else pure e.bindings)
unfolding allocate_table ◌>>=◌
share-Linked p e false = Keeps-pure e.bindings
share-Linked p e true = Keeps-bind _ _ (load_table-Keeps e.bindings) λ t. record {
  at = λ vm (w, below, used). (
    record {
      counted = w.counted;
      current = omega (arith, w.current);
      chained = λ q d h. omega (arith, w.chained q d h);
    },
    below,
    omega arith,
  );
}

pub clone_env-Newest : (p : Ptr) (cow : Bool) → Triple IsWellFormed (clone_env p cow) Newest
unfolding clone_env
clone_env-Newest p cow = Triple-bind _ _ (load_env-Linked p) λ e.
    Triple-bind _ _ (share-Linked p e cow)
      λ t. Triple-pre (allocate_env-Newest _) λ vm (w, below, used). (w, omega arith)

pub clone_env-Allocated : (p : Ptr) (cow : Bool) → Triple IsWellFormed (clone_env p cow) Allocated
clone_env-Allocated p cow = Triple-mono (clone_env-Newest p cow) λ q vm n. (n.0, omega (arith, n.1))

pub clone_env-Keeps : (p : Ptr) (cow : Bool) → Keeps IsWellFormed (clone_env p cow)
clone_env-Keeps p cow = Triple-mono (clone_env-Allocated p cow) λ q vm a. a.0

-- a new environment below the current one
pub push_env-Keeps : Keeps IsWellFormed push_env
unfolding push_env
push_env-Keeps = Keeps-bind _ _ (allocate_table-Keeps []) λ table.
    Triple-bind {R = Allocated} _ _ current λ parent. Triple-bind _ _ (copied parent) λ e.
      Triple-bind _ _ (allocate_env-Newest _)
        λ child. Triple-pre (set_current-Keeps child) λ vm n. (n.0, omega (arith, n.1))
  where
    current : Triple IsWellFormed (gets (λ vm. vm.env)) Allocated
    current = unfold gets in record { at = λ vm w. (w, w.current) }

    copied : (p : Ptr) → Keeps (Allocated p) (if p == null then pure blank_env else load_env p)
    copied p = Keeps-if (p == null) _ _ (Keeps-pure blank_env) (load_env-Keeps p)

pub pop_env-Keeps : Keeps IsWellFormed pop_env
unfolding pop_env
pop_env-Keeps = Keeps-bind _ _ (Keeps-gets _) λ p. Keeps-if (p == null) _ _ (Keeps-pure tt) (
    Triple-bind _ _ (load_env-Linked p)
      λ e. Triple-pre (set_current-Keeps e.parent) λ vm (w, below, used). (w, omega arith))

pub enter_handler-Keeps : (p : Ptr) → Keeps IsWellFormed (enter_handler p)
unfolding enter_handler
enter_handler-Keeps p = Triple-bind _ _ (clone_env-Allocated p false) λ copy.
    Triple-bind _ _ (Triple-pre (load_env-Linked copy) λ vm a. a.0)
      λ e. Triple-bind _ _ (store_env-Allocated copy _) λ _. set_current-Keeps copy

pub cons_all-Keeps : (objs : List Ptr) (list : Ptr) → Keeps IsWellFormed (cons_all objs list)
unfolding cons_all
cons_all-Keeps [] list = Keeps-pure list
cons_all-Keeps (obj ∷ objs) list = Keeps-bind _ _ (cons-Keeps obj list) (cons_all-Keeps objs)

pub ruleset frame_rules = (
  heap_rules, vm_push-Keeps, drop_top-Keeps, clone_env-Keeps, push_env-Keeps, pop_env-Keeps,
  enter_handler-Keeps, cons_all-Keeps,
)
