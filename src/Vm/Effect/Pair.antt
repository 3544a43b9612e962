-- ===== src/Vm/Effect/Pair.antt =====
-- vm_list.c: pairs are built, taken apart and changed.
use insomniac.Base.{◌≡◌, ◌≢◌, List, [], ◌∷◌, arith, false, some, ◌+◌}
use insomniac.Vm.State.{Ptr, null, Vm, Object, CellType, has_type, update}
use insomniac.Vm.Run.{done, ◌>>=◌, ◌>>◌}
use insomniac.Vm.Exception.{throw}
use insomniac.Vm.Effect.{with_stack}
use insomniac.Vm.Ops.Pair.{op_cons, op_car, op_cdr, op_set_car, op_set_cdr}

module _ (p q : Ptr) (s : List Ptr) (vm : Vm) (hp : p ≢ null) (hq : q ≢ null) where
  -- `cons` leaves a pair of the two topmost objects, the first on top, at a new address.
  pub op_cons_lem :
      op_cons (with_stack (p ∷ q ∷ s) vm)
      ≡ done tt (
          with_stack (vm.next ∷ s) (record vm {
            objects = update vm.objects vm.next (Object.pair p q);
            next = vm.next + 1;
          }))
  unfolding op_cons ◌>>=◌
  op_cons_lem = ground arith

  pub op_car-op_cons :
      vm.next ≢ null
      → (op_cons >> op_car) (with_stack (p ∷ q ∷ s) vm)
        ≡ done tt (
            with_stack (p ∷ s) (record vm {
              objects = update vm.objects vm.next (Object.pair p q);
              next = vm.next + 1;
            }))
  unfolding op_cons op_car ◌>>=◌
  op_car-op_cons hn = ground arith

  pub op_cdr-op_cons :
      vm.next ≢ null
      → (op_cons >> op_cdr) (with_stack (p ∷ q ∷ s) vm)
        ≡ done tt (
            with_stack (q ∷ s) (record vm {
              objects = update vm.objects vm.next (Object.pair p q);
              next = vm.next + 1;
            }))
  unfolding op_cons op_cdr ◌>>=◌
  op_cdr-op_cons hn = ground arith

-- the machine after a write to a pair
abbrev pub paired : Ptr → Ptr → Ptr → Vm → Vm
paired p car cdr vm = record vm { objects = update vm.objects p (Object.pair car cdr) }

module _ (v p car cdr : Ptr) (s : List Ptr) (vm : Vm) (hv : v ≢ null) (hp : p ≢ null)
    (holds : vm.objects p ≡ some (Object.pair car cdr)) where
  -- `set-car!` leaves the pair on the stack; its `car` is the new object, its `cdr` the old one.
  pub op_set_car_lem :
      op_set_car (with_stack (v ∷ p ∷ s) vm) ≡ done tt (with_stack (p ∷ s) (paired p v cdr vm))
  unfolding op_set_car ◌>>=◌
  op_set_car_lem = ground arith

  pub op_set_cdr_lem :
      op_set_cdr (with_stack (v ∷ p ∷ s) vm) ≡ done tt (with_stack (p ∷ s) (paired p car v vm))
  unfolding op_set_cdr ◌>>=◌
  op_set_cdr_lem = ground arith

  -- After `set-car!` and then `set-cdr!` of the same pair, `car` gives the first object.
  pub op_car-op_set_car :
      (op_set_car >> op_car) (with_stack (v ∷ p ∷ s) vm)
      ≡ done tt (with_stack (v ∷ s) (paired p v cdr vm))
  unfolding op_set_car op_car ◌>>=◌
  op_car-op_set_car = ground arith

  -- For a pair, `set-car!` followed by `cdr` pushes the `cdr` of before, and the pair has the
  -- new `car`.
  pub op_cdr-op_set_car :
      (op_set_car >> op_cdr) (with_stack (v ∷ p ∷ s) vm)
      ≡ done tt (with_stack (cdr ∷ s) (paired p v cdr vm))
  unfolding op_set_car op_cdr ◌>>=◌
  op_cdr-op_set_car = ground arith

-- An object that is no pair is thrown.
pub op_car-throw :
    (p : Ptr) (o : Object) (s : List Ptr) (vm : Vm)
    → p ≢ null
    → vm.objects p ≡ some o
    → has_type o CellType.pair ≡ false
    → op_car (with_stack (p ∷ s) vm)
      ≡ throw "Attempt to read the car of a non-pair" (p ∷ []) (with_stack s vm)
unfolding op_car ◌>>=◌
op_car-throw p o s vm hp holds other = ground arith
