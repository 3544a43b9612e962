-- ===== src/Vm/Effect/Raise.antt =====
-- `handle_exception` of vm_exception.c: the exception that is built.
use Prim.Native.String.{String}
use insomniac.Base.{
  ℕ, ◌≡◌, ◌<◌, ◌≤◌, ◌^◌, refl, ap, List, [], ◌∷◌, arith, false, true, some, length, ◌∙◌, ◌+◌, ◌%◌,
  ◌++◌, ltb,
}
use insomniac.Vm.State.{Ptr, Vm, Env, Object}
use insomniac.Vm.Run.{M, pure, gets, ◌>>=◌, ◌>>◌}
use insomniac.Vm.Text.{codes, strncpy}
use insomniac.Vm.Triple.{Returns, Returns-bind, Returns-gets, Returns-mono}
use insomniac.Vm.Heap.{cons, vm_alloc, vm_make_string}
use insomniac.Vm.WellFormed.{IsWellFormed}
use insomniac.Vm.Exception.{vm_push, clone_env, cons_all, raise}

-- `vm` differs from `start` in new objects and in its stack `s`
abbrev pub Grown : Vm → List Ptr → Vm → Type 0
Grown start s vm =
    (vm.env ≡ start.env)
    × (vm.stack ≡ s)
    × (start.next ≤ vm.next)
    × ((p : Ptr) → p < start.next → vm.envs p ≡ start.envs p)
    × ((p : Ptr) → p < start.next → vm.objects p ≡ start.objects p)

Grown-trans :
    (start vm vm' : Vm) {s t : List Ptr} → Grown start s vm → Grown vm t vm' → Grown start t vm'
Grown-trans start vm vm' (env, stack, next, envs, objects) (env', stack', next', envs', objects') =
    (
      env' ∙ env,
      stack',
      omega arith,
      λ p h. envs' p (omega arith) ∙ envs p h,
      λ p h. objects' p (omega arith) ∙ objects p h,
    )

-- From `list` to `p`, a pair was made in front for each object.
abbrev pub IsConsed : Vm → List Ptr → Ptr → Ptr → Type 0
IsConsed vm [] list p = p ≡ list
IsConsed vm (obj ∷ objs) list p =
    (q : Ptr) × (q < vm.next) × (vm.objects q ≡ some (Object.pair obj list)) × IsConsed vm objs q p

pub IsConsed-later :
    (vm vm' : Vm) (objs : List Ptr) (list p : Ptr)
    → vm.next ≤ vm'.next
    → ((q : Ptr) → q < vm.next → vm'.objects q ≡ vm.objects q)
    → IsConsed vm objs list p
    → IsConsed vm' objs list p
IsConsed-later vm vm' [] list p next objects e = e
IsConsed-later vm vm' (obj ∷ objs) list p next objects (q, low, pair, more) =
    (q, omega arith, objects q low ∙ pair, IsConsed-later vm vm' objs q p next objects more)

cons-made :
    (a b : Ptr) (vm : Vm)
    → Returns
        (λ p vm'. Grown vm vm.stack vm' × (p < vm'.next) × (vm'.objects p ≡ some (Object.pair a b)))
        (cons a b vm)
unfolding cons ◌>>=◌
cons-made a b vm =
    ((refl, refl, omega arith, λ p h. refl, λ p h. ground arith), omega arith, ground arith)

cons_all-IsConsed :
    (objs : List Ptr) (list : Ptr) (vm : Vm)
    → Returns (λ p vm'. Grown vm vm.stack vm' × IsConsed vm' objs list p) (cons_all objs list vm)
unfolding cons_all pure
cons_all-IsConsed [] list vm = ((refl, refl, omega arith, λ p h. refl, λ p h. refl), refl)
cons_all-IsConsed (obj ∷ objs) list vm =
    Returns-bind
      (λ q vm'.
        Grown vm vm.stack vm' × (q < vm'.next) × (vm'.objects q ≡ some (Object.pair obj list)))
      (λ p vm'. Grown vm vm.stack vm' × IsConsed vm' (obj ∷ objs) list p) _ _ vm
      (cons-made obj list vm)
      (λ q vm1 (g, low, pair).
        Returns-mono (λ p vm'. Grown vm vm.stack vm' × IsConsed vm' (obj ∷ objs) list p)
          (λ p vm'. Grown vm1 vm1.stack vm' × IsConsed vm' objs q p) _
          (cons_all-IsConsed objs q vm1)
          (λ p vm2 (g', consed).
            (later vm1 vm2 g g', (q, omega (arith, g'.2), g'.4 q low ∙ pair, consed))))
  where
    later : (vm1 vm2 : Vm) → Grown vm vm.stack vm1 → Grown vm1 vm1.stack vm2 → Grown vm vm.stack vm2
    later vm1 vm2 g g' =
        let g'' = Grown-trans vm vm1 vm2 g g' in (g''.0, g''.1 ∙ g.1, g''.2, g''.3, g''.4)

-- what the theorems on exceptions ask of the message and of the machine
pub record CanRaise (msg : String) (vm : Vm) : Type 0 where
  pub text : List ℕ
  pub env : Env
  pub copied : strncpy (codes msg) (length (codes msg)) ≡ some text
  pub small : length (codes msg) < 2 ^ 46
  pub current : vm.envs vm.env ≡ some env

-- The exception: the message, a closure of a copy of the current environment `e`, and the objects.
pub record IsException (buf text : List ℕ) (e : Env) (objs : List Ptr) (nil x : Ptr) (vm : Vm)
    : Type 0 where
  pub message : Ptr
  pub bytes : Ptr
  pub placed : Ptr
  pub closure : Ptr
  pub place : Ptr
  pub given : Ptr
  pub exception : vm.objects x ≡ some (Object.pair message placed)
  pub string : vm.objects message ≡ some (Object.string (length buf) bytes)
  pub memory : vm.blocks bytes ≡ some (text ++ 0 ∷ [])
  pub pair : vm.objects placed ≡ some (Object.pair closure given)
  pub closed : vm.objects closure ≡ some (Object.closure place)
  pub low : place < vm.next
  pub copy : vm.envs place ≡ some e
  pub consed : IsConsed vm objs nil given

-- The exception stays where no object and no block changes.
pub IsException-later :
    {buf text : List ℕ} {e : Env} {objs : List Ptr} {nil x : Ptr} (vm vm' : Vm)
    → vm'.objects ≡ vm.objects
    → vm'.blocks ≡ vm.blocks
    → vm.next ≤ vm'.next
    → ((p : Ptr) → p < vm.next → vm'.envs p ≡ vm.envs p)
    → IsException buf text e objs nil x vm
    → IsException buf text e objs nil x vm'
IsException-later {objs = objs} {nil = nil} {x = x} vm vm' objects blocks next envs i = record {
  message = i.message;
  bytes = i.bytes;
  placed = i.placed;
  closure = i.closure;
  place = i.place;
  given = i.given;
  exception = ap (λ f. f x) objects ∙ i.exception;
  string = ap (λ f. f i.message) objects ∙ i.string;
  memory = ap (λ f. f i.bytes) blocks ∙ i.memory;
  pair = ap (λ f. f i.placed) objects ∙ i.pair;
  closed = ap (λ f. f i.closure) objects ∙ i.closed;
  low = omega (arith, i.low);
  copy = envs i.place i.low ∙ i.copy;
  consed = IsConsed-later vm vm' objs nil i.given next (λ q low. ap (λ f. f q) objects) i.consed;
}

-- `raise` behind the list of the objects
unfoldable finish : String → Ptr → M Ptr
unfolding vm_alloc clone_env vm_make_string cons vm_push
finish msg given = do
  current ← gets (λ vm. vm.env)
  place ← clone_env current false
  closure ← vm_alloc (Object.closure place)
  placed ← cons closure given
  text ← vm_make_string (codes msg) (length (codes msg))
  exception ← cons text placed
  vm_push exception
  pure exception

finish_lem :
    (buf text : List ℕ) (msg : String) (e : Env) (objs : List Ptr) (nil given : Ptr) (vm : Vm)
    → codes msg ≡ buf
    → strncpy buf (length buf) ≡ some text
    → length buf < 2 ^ 46
    → vm.envs vm.env ≡ some e
    → vm.env < vm.next
    → Returns
        (λ x vm'.
          Grown vm (x ∷ vm.stack) vm'
          × (IsConsed vm' objs nil given → IsException buf text e objs nil x vm'))
        (finish msg given vm)
unfolding finish vm_alloc clone_env vm_make_string cons vm_push ◌>>=◌ pure
finish_lem buf text msg e objs nil given vm named copied small has low =
    let room : (length buf + 1) % 2 ^ 64 ≡ length buf + 1 = omega arith in
    rw (has, named, room, ge_short, wide, copied)
      (
        (refl, refl, omega arith, λ p h. ground arith, λ p h. ground arith),
        λ consed. record {
          message = vm.next + 1 + 1 + 1 + 1;
          bytes = vm.next + 1 + 1 + 1;
          placed = vm.next + 1 + 1;
          closure = vm.next + 1;
          place = vm.next;
          given = given;
          exception = ground arith;
          string = ground arith;
          memory = ground arith;
          pair = ground arith;
          closed = ground arith;
          low = omega arith;
          copy = ground arith;
          consed = consed;
        },
      )
  where
    ge_short : ltb (length buf + 1) (2 ^ 47) ≡ true
    ge_short = ground arith

    wide : ltb (length buf) (length buf + 1) ≡ true
    wide = ground arith

module _ (start : Vm) (w : IsWellFormed start) (msg : String) (objs : List Ptr)
    (c : CanRaise msg start) where
  -- the exception of this raise
  abbrev pub IsRaised : Ptr → Vm → Type 0
  IsRaised = IsException (codes msg) c.text c.env objs start.empty

  pub raise-Grown :
      Returns (λ x vm. Grown start (x ∷ start.stack) vm × IsRaised x vm) (raise msg objs start)
  unfolding raise finish
  raise-Grown =
      let Q : Ptr → Vm → Type 0 = λ x vm. (Grown start (x ∷ start.stack) vm × IsRaised x vm) in
      let P : Ptr → Vm → Type 0 =
        λ given vm. (Grown start start.stack vm × IsConsed vm objs start.empty given) in
      Returns-bind (λ nil vm. (nil ≡ start.empty) × (vm ≡ start)) Q _ _ start
        (Returns-gets (λ nil vm. (nil ≡ start.empty) × (vm ≡ start)) _ start (refl, refl))
        λ nil vm (e, same).
          rw (e, same)
            (Returns-bind P Q _ _ start (cons_all-IsConsed objs start.empty start)
              λ given vm1 (g, consed).
                let has : vm1.envs vm1.env ≡ some c.env =
                  ap vm1.envs g.0 ∙ g.3 start.env w.current ∙ c.current in
                Returns-mono Q
                  (λ x vm'.
                    Grown vm1 (x ∷ vm1.stack) vm'
                    × (IsConsed vm' objs start.empty given → IsRaised x vm'))
                  _
                  (finish_lem (codes msg) c.text msg c.env objs start.empty given vm1 refl c.copied
                    c.small has (omega (arith, g.0, g.2, w.current)))
                  (λ x vm2 (g', raised).
                    let g'' = Grown-trans start vm1 vm2 g g' in
                    (
                      (g''.0, g''.1 ∙ ap (λ s. x ∷ s) g.1, g''.2, g''.3, g''.4),
                      raised (IsConsed-later vm1 vm2 objs start.empty given g'.2 g'.4 consed),
                    )))
