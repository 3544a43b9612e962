-- ===== src/Vm/Effect/Binding.antt =====
-- The search of vm_locations.c for the environment that binds a name.
use insomniac.Base.{ℕ, zero, suc, ◌≡◌, ◌≢◌, ◌<◌, refl, List, arith, none, some}
use insomniac.Vm.State.{Ptr, null, Vm, Env, Object, Bindings, update}
use insomniac.Vm.Run.{done, ◌>>=◌}
use insomniac.Vm.Text.{c_string}
use insomniac.Vm.Table.{hash_get-hash_set, same_text_refl}
use insomniac.Vm.WellFormed.{IsWellFormed}
use insomniac.Vm.Ops.Literal.{hash_get, hash_set}
use insomniac.Vm.Ops.Location.{find_binding}

-- the object at `p` is the symbol `name`
pub record IsSymbol (vm : Vm) (p : Ptr) (name : List ℕ) : Type 0 where
  pub present : p ≢ null
  pub size : ℕ
  pub bytes : Ptr
  pub block : List ℕ
  pub symbol : vm.objects p ≡ some (Object.symbol size bytes)
  pub memory : vm.blocks bytes ≡ some block
  pub text : c_string block ≡ some name

-- the environment `p`, and the table of its own variables
pub record IsFrame (vm : Vm) (p : Ptr) (e : Env) (t : Bindings) : Type 0 where
  pub present : p ≢ null
  pub env : vm.envs p ≡ some e
  pub table : vm.tables e.bindings ≡ some t

-- From `p` outwards, the nearest environment that binds `name` is `q`, with the value `v` in the
-- table `t` at `b`.
pub data Binds (vm : Vm) (name : List ℕ) (q b : Ptr) (t : Bindings) (v : Ptr) : Ptr → Type 0 where
  here :
      (e : Env)
      → IsFrame vm q e t
      → b ≡ e.bindings
      → hash_get name t ≡ some v
      → Binds vm name q b t v q
  outer :
      {p : Ptr} (e : Env) (u : Bindings)
      → IsFrame vm p e u
      → hash_get name u ≡ none
      → Binds vm name q b t v e.parent
      → Binds vm name q b t v p

-- From `p` outwards no environment binds `name`.
pub data Unbound (vm : Vm) (name : List ℕ) : Ptr → Type 0 where
  end : Unbound vm name null
  outer :
      {p : Ptr} (e : Env) (u : Bindings)
      → IsFrame vm p e u
      → hash_get name u ≡ none
      → Unbound vm name e.parent
      → Unbound vm name p

module _ {vm : Vm} (w : IsWellFormed vm) (name : List ℕ) where
  pub find_binding-Binds :
      (n : ℕ) {p q b : Ptr} {t : Bindings} {v : Ptr}
      → Binds vm name q b t v p
      → p < n
      → find_binding n name p vm ≡ done (some (q, v)) vm
  unfolding find_binding ◌>>=◌
  find_binding-Binds zero d h = absurd (omega arith)
  find_binding-Binds (suc n) (here e f same found) h = ground (arith, f.present, f.env, f.table)
  find_binding-Binds (suc n) (outer {p} e u f missing d) h = ground (
    arith,
    f.present,
    f.env,
    f.table,
    find_binding-Binds n d (omega (arith, w.chained p e f.env)),
  )

  pub find_binding-Unbound :
      (n : ℕ) {p : Ptr} → Unbound vm name p → p < n → find_binding n name p vm ≡ done none vm
  unfolding find_binding ◌>>=◌
  find_binding-Unbound zero d h = absurd (omega arith)
  find_binding-Unbound (suc n) end h = refl
  find_binding-Unbound (suc n) (outer {p} e u f missing d) h = ground (
    arith,
    f.present,
    f.env,
    f.table,
    find_binding-Unbound n d (omega (arith, w.chained p e f.env)),
  )

-- the machine after a variable is written to the table at `b`
abbrev pub assigned : Ptr → List ℕ → Ptr → Bindings → Vm → Vm
assigned b name v t vm = record vm { tables = update vm.tables b (hash_set name v t) }

-- what the nearest environment is known by
pub nearest :
    {vm : Vm} {name : List ℕ} {q b v : Ptr} {t : Bindings} {p : Ptr}
    → Binds vm name q b t v p
    → (e : Env) × IsFrame vm q e t × (b ≡ e.bindings) × (hash_get name t ≡ some v)
nearest (here e f same found) = (e, f, same, found)
nearest (outer e u f missing d) = nearest d

-- After a write to the table of the nearest environment that environment is the nearest still.
pub Binds-assigned :
    {vm : Vm} {name : List ℕ} {q b v : Ptr} {t : Bindings} {p : Ptr} (x : Ptr)
    → vm.tables b ≡ some t
    → hash_get name t ≡ some v
    → Binds vm name q b t v p
    → Binds (assigned b name x t vm) name q b (hash_set name x t) x p
Binds-assigned {name} {t} x at_b has (here e f same found) =
    here e (record { present = f.present; env = f.env; table = ground (arith, f.table) }) same
      (ground (arith, hash_get-hash_set name name x t, same_text_refl name))
Binds-assigned x at_b has (outer e u f missing d) =
    outer e u (record { present = f.present; env = f.env; table = ground (arith, f.table) }) missing
      (Binds-assigned x at_b has d)
