-- ===== src/Vm/Effect/Location.antt =====
-- vm_locations.c: variables in nested environments.
use insomniac.Base.{ℕ, suc, ◌≡◌, ◌≢◌, refl, List, [], ◌∷◌, arith}
use insomniac.Vm.State.{Ptr, null, Vm, Env, Bindings}
use insomniac.Vm.Run.{done, ◌>>=◌}
use insomniac.Vm.Table.{hash_get-hash_set, same_text_refl}
use insomniac.Vm.WellFormed.{IsWellFormed}
use insomniac.Vm.Effect.{with_stack}
use insomniac.Vm.Exception.{throw}
use insomniac.Vm.Ops.Literal.{hash_set}
use insomniac.Vm.Ops.Location.{op_bind, op_read, op_set}
use insomniac.Vm.Effect.Binding.{
  Binds, Binds-assigned, IsFrame, IsSymbol, Unbound, assigned, find_binding-Binds,
  find_binding-Unbound, nearest,
}

module _ (key : Ptr) (name : List ℕ) (s : List Ptr) (vm : Vm) (w : IsWellFormed (with_stack s vm))
    (k : IsSymbol vm key name) where
  -- In a well-formed machine, a read of a symbol pushes the value that the nearest environment
  -- with a binding of its name has for it, and changes nothing else.
  pub op_read-Binds :
      {q b v : Ptr} {t : Bindings}
      → Binds (with_stack s vm) name q b t v vm.env
      → op_read (with_stack (key ∷ s) vm) ≡ done tt (with_stack (v ∷ s) vm)
  unfolding op_read ◌>>=◌
  op_read-Binds d = ground (
    arith,
    k.present,
    k.symbol,
    k.memory,
    k.text,
    find_binding-Binds w name (suc vm.next) d (omega (arith, w.current)),
  )

  -- In a well-formed machine, a read of a symbol whose name no environment binds throws, with
  -- the symbol.
  pub op_read-Unbound :
      Unbound (with_stack s vm) name vm.env
      → op_read (with_stack (key ∷ s) vm)
        ≡ throw "Attempt to read undefined symbol" (key ∷ []) (with_stack s vm)
  unfolding op_read ◌>>=◌
  op_read-Unbound d = ground (
    arith,
    k.present,
    k.symbol,
    k.memory,
    k.text,
    find_binding-Unbound w name (suc vm.next) d (omega (arith, w.current)),
  )

module _ (key x : Ptr) (name : List ℕ) (s : List Ptr) (vm : Vm) (w : IsWellFormed (with_stack s vm))
    (k : IsSymbol vm key name) (hx : x ≢ null) where
  -- A write changes the table of the nearest environment that binds the name, and nothing else.
  pub op_set-Binds :
      {q b v : Ptr} {t : Bindings}
      → Binds (with_stack s vm) name q b t v vm.env
      → op_set (with_stack (key ∷ x ∷ s) vm) ≡ done tt (with_stack s (assigned b name x t vm))
  unfolding op_set ◌>>=◌
  op_set-Binds d =
      let (e, f, same, found) = nearest d in
      ground (
        arith,
        k.present,
        k.symbol,
        k.memory,
        k.text,
        f.env,
        f.table,
        same,
        find_binding-Binds w name (suc vm.next) d (omega (arith, w.current)),
      )

  pub op_set-Unbound :
      Unbound (with_stack s vm) name vm.env
      → op_set (with_stack (key ∷ x ∷ s) vm)
        ≡ throw "Attempt to set undefined symbol" (key ∷ x ∷ []) (with_stack s vm)
  unfolding op_set ◌>>=◌
  op_set-Unbound d = ground (
    arith,
    k.present,
    k.symbol,
    k.memory,
    k.text,
    find_binding-Unbound w name (suc vm.next) d (omega (arith, w.current)),
  )

  -- A binding goes to the table of the current environment.
  pub op_bind_lem :
      (e : Env) (t : Bindings)
      → IsFrame (with_stack s vm) vm.env e t
      → op_bind (with_stack (key ∷ x ∷ s) vm)
        ≡ done tt (with_stack s (assigned e.bindings name x t vm))
  unfolding op_bind ◌>>=◌
  op_bind_lem e t f = ground (arith, k.present, k.symbol, k.memory, k.text, f.env, f.table)

module _ (key x : Ptr) (name : List ℕ) (s : List Ptr) (vm : Vm) (w : IsWellFormed (with_stack s vm))
    (k : IsSymbol vm key name) (hx : x ≢ null) where
  IsWellFormed-assigned :
      (b : Ptr) (t : Bindings) → IsWellFormed (with_stack s (assigned b name x t vm))
  IsWellFormed-assigned b t = record { counted = refl; current = w.current; chained = w.chained }

  IsSymbol-assigned : (b : Ptr) (t : Bindings) → IsSymbol (assigned b name x t vm) key name
  IsSymbol-assigned b t = record {
    present = k.present;
    size = k.size;
    bytes = k.bytes;
    block = k.block;
    symbol = k.symbol;
    memory = k.memory;
    text = k.text;
  }

  -- In a well-formed machine where some environment binds the name of a symbol, `set` of it to
  -- an object that is not null writes only to the table of the nearest such environment, and a
  -- later read of the symbol pushes the object.
  pub op_read-op_set :
      {q b v : Ptr} {t : Bindings}
      → Binds (with_stack s vm) name q b t v vm.env
      → (op_set (with_stack (key ∷ x ∷ s) vm) ≡ done tt (with_stack s (assigned b name x t vm)))
        × (op_read (with_stack (key ∷ s) (assigned b name x t vm))
            ≡ done tt (with_stack (x ∷ s) (assigned b name x t vm)))
  op_read-op_set {b} {t} d =
      let (e, f, same, found) = nearest d in
      (
        op_set-Binds key x name s vm w k hx d,
        op_read-Binds key name s (assigned b name x t vm) (IsWellFormed-assigned b t)
            (IsSymbol-assigned b t) (Binds-assigned x (rw same f.table) found d),
      )

  -- In a well-formed machine, `bind` of a symbol to an object that is not null writes only to
  -- the table of the current environment, and a later read of the symbol pushes the object,
  -- whatever the outer environments bind it to.
  pub op_read-op_bind :
      (e : Env) (t : Bindings)
      → IsFrame (with_stack s vm) vm.env e t
      → (op_bind (with_stack (key ∷ x ∷ s) vm)
          ≡ done tt (with_stack s (assigned e.bindings name x t vm)))
        × (op_read (with_stack (key ∷ s) (assigned e.bindings name x t vm))
            ≡ done tt (with_stack (x ∷ s) (assigned e.bindings name x t vm)))
  op_read-op_bind e t f = (
    op_bind_lem key x name s vm w k hx e t f,
    op_read-Binds key name s (assigned e.bindings name x t vm) (IsWellFormed-assigned e.bindings t)
        (IsSymbol-assigned e.bindings t) {t = hash_set name x t}
        (Binds.here e (record { present = f.present; env = f.env; table = ground arith }) refl
          (ground (arith, hash_get-hash_set name name x t, same_text_refl name))),
  )
