-- ===== src/Vm/Effect/Symbol.antt =====
-- `make_symbol`: a name has one symbol.
use insomniac.Base.{ℕ, ◌≡◌, refl, List, arith, none, some, Option-cases, inl, inr}
use insomniac.Vm.State.{Ptr, Vm, Object, Bindings, update}
use insomniac.Vm.Run.{M, done, pure, ◌>>=◌}
use insomniac.Vm.Text.{c_string}
use insomniac.Vm.Table.{hash_get-hash_set, same_text_refl}
use insomniac.Vm.Ops.Literal.{hash_get, hash_set, make_symbol}

-- the string at `p` has the name `name`
pub record Named (vm : Vm) (p : Ptr) (name : List ℕ) : Type 0 where
  pub size : ℕ
  pub bytes : Ptr
  pub block : List ℕ
  pub string : vm.objects p ≡ some (Object.string size bytes)
  pub memory : vm.blocks bytes ≡ some block
  pub text : c_string block ≡ some name

module _ (vm : Vm) (p : Ptr) (name : List ℕ) (t : Bindings) (n : Named vm p name)
    (symbols : vm.tables vm.symbol_table ≡ some t) where
  open n use {size, bytes, block, string, memory, text}

  -- the machine where the string became the symbol of its name
  abbrev pub interned : Vm
  interned = record vm {
    objects = update vm.objects p (Object.symbol size bytes);
    tables = update vm.tables vm.symbol_table (hash_set name p t);
  }

  pub make_symbol-known : (q : Ptr) → hash_get name t ≡ some q → make_symbol p vm ≡ done q vm
  unfolding make_symbol ◌>>=◌
  make_symbol-known q h = ground arith

  pub make_symbol-new : hash_get name t ≡ none → make_symbol p vm ≡ done p interned
  unfolding make_symbol ◌>>=◌
  make_symbol-new h = ground arith

  -- the name is known from then on, also to another string
  make_symbol-again :
      (p' : Ptr)
      → Named vm p' name
      → hash_get name t ≡ none
      → make_symbol p' interned ≡ done p interned
  unfolding make_symbol ◌>>=◌
  make_symbol-again p' n' h =
      ground
        (arith, n'.string, n'.memory, n'.text, hash_get-hash_set name name p t, same_text_refl name)

-- two strings of one name, each made a symbol, with both results
abbrev pub make_both : Ptr → Ptr → M (Ptr × Ptr)
make_both p p' = do q ← make_symbol p; q' ← make_symbol p'; pure (q, q')

-- Two strings with the same text, each made a symbol one after the other, give one and the same
-- object, whether or not the symbol was known before.
pub make_symbol_unique :
    (vm : Vm) (p p' : Ptr) (name : List ℕ) (t : Bindings)
    → Named vm p name
    → Named vm p' name
    → vm.tables vm.symbol_table ≡ some t
    → (q : Ptr) × (vm' : Vm) × (make_both p p' vm ≡ done (q, q) vm')
unfolding ◌>>=◌
make_symbol_unique vm p p' name t n n' symbols = elim (Option-cases (hash_get name t)) [
  | inr (q, e) ↦ (
    q,
    vm,
    rw (make_symbol-known vm p name t n symbols q e, make_symbol-known vm p' name t n' symbols q e)
        (unfold pure in refl),
  )
  | inl e ↦
      let vm' : Vm = interned vm p name t n symbols in
      (
        p,
        vm',
        rw
            (
              make_symbol-new vm p name t n symbols e,
              make_symbol-again vm p name t n symbols p' n' e,
            )
            (unfold pure in refl),
      )
]
