-- ===== src/Vm/Types.antt =====
-- vm_types.c: the machine tells the collector where its structures hold pointers.
use insomniac.Base.{ℕ, ◌≡◌, refl, some, List, [], ◌∷◌, map, get_elem?}
use insomniac.Gc.State.{Result, done, ◌>>=◌, ptr, Gc}
use insomniac.Gc.Types.{gc_register_type, gc_register_pointer, gc_register_array, register_field}
use insomniac.Gc.Core.{gc_create}

-- The sizes of the structures and the offsets of their pointers, which the compiler of C chooses.
pub record Layout : Type 0 where
  pub object_size : ℕ
  pub env_size : ℕ
  pub vm_size : ℕ
  pub car : ℕ
  pub cdr : ℕ
  pub string_bytes : ℕ
  pub closure : ℕ
  pub vector : ℕ
  pub code_ref : ℕ
  pub bindings : ℕ
  pub parent : ℕ
  pub stack_root : ℕ
  pub empty : ℕ
  pub vm_true : ℕ
  pub vm_false : ℕ
  pub reg1 : ℕ
  pub reg2 : ℕ
  pub reg3 : ℕ
  pub symbol_table : ℕ
  pub import_table : ℕ
  pub env : ℕ

-- a new type with pointers at the offsets, in the order of the calls
unfoldable pub register_pointers : ℕ → List ℕ → Gc → Result (ℕ × Gc)
unfolding ◌>>=◌ gc_register_pointer
register_pointers type [] gc = done (type, gc)
register_pointers type (offset ∷ offsets) gc =
    gc_register_pointer type offset gc >>= register_pointers type offsets

unfoldable pub register_struct : ℕ → List ℕ → Gc → Result (ℕ × Gc)
unfolding gc_register_type register_pointers
register_struct size offsets gc =
    let (type, next) = gc_register_type size gc in register_pointers type offsets next

-- `vm->types` with `vm->env_type`. An entry that is never set is 0, as the machine is allocated.
pub record VmTypes : Type 0 where
  pub fixnum : ℕ
  pub pair : ℕ
  pub bool : ℕ
  pub char : ℕ
  pub string : ℕ
  pub vector : ℕ
  pub byte_vector : ℕ
  pub record_type : ℕ
  pub symbol : ℕ
  pub closure : ℕ
  pub library : ℕ
  pub empty : ℕ
  pub env_type : ℕ

module _ (layout : Layout) where
  open layout use {
    object_size, env_size, vm_size, car, cdr, string_bytes, code_ref, bindings, parent, stack_root,
    vm_true, vm_false, reg1, reg2, reg3, symbol_table, import_table, env,
  }

  unfoldable pub register_basic : Gc → Result (ℕ × Gc)
  unfolding register_struct
  register_basic = register_struct object_size []

  unfoldable pub register_pair : Gc → Result (ℕ × Gc)
  unfolding register_struct
  register_pair = register_struct object_size (car ∷ cdr ∷ [])

  unfoldable pub register_string : Gc → Result (ℕ × Gc)
  unfolding register_struct
  register_string = register_struct object_size (string_bytes ∷ [])

  unfoldable pub register_closure : Gc → Result (ℕ × Gc)
  unfolding register_struct
  register_closure = register_struct object_size (layout.closure ∷ [])

  unfoldable pub register_library : Gc → Result (ℕ × Gc)
  unfolding register_struct
  register_library = register_struct object_size []

  unfoldable pub register_vector : Gc → Result (ℕ × Gc)
  unfolding register_struct
  register_vector = register_struct object_size (layout.vector ∷ [])

  unfoldable pub register_env : Gc → Result (ℕ × Gc)
  unfolding register_struct
  register_env = register_struct env_size (code_ref ∷ bindings ∷ parent ∷ [])

  -- byte vectors and records have the type of vectors; no type is set for symbols
  unfoldable pub create_types : Gc → Result (VmTypes × Gc)
  unfolding ◌>>=◌ register_basic register_pair register_string register_closure register_library
      register_vector register_env
  create_types gc = do
    (fixnum, g1) ← register_basic gc
    (pair, g2) ← register_pair g1
    (bool, g3) ← register_basic g2
    (char, g4) ← register_basic g3
    (string, g5) ← register_string g4
    (vector, g6) ← register_vector g5
    (closure, g7) ← register_closure g6
    (library, g8) ← register_library g7
    (empty, g9) ← register_basic g8
    (env_type, g10) ← register_env g9
    done (
      record {
        fixnum = fixnum;
        pair = pair;
        bool = bool;
        char = char;
        string = string;
        vector = vector;
        byte_vector = vector;
        record_type = vector;
        symbol = 0;
        closure = closure;
        library = library;
        empty = empty;
        env_type = env_type;
      },
      g10,
    )

  unfoldable pub create_vm_type : Gc → Result (ℕ × Gc)
  unfolding register_struct
  create_vm_type = register_struct vm_size (
      stack_root ∷ layout.empty ∷ vm_true ∷ vm_false ∷ reg1 ∷ reg2 ∷ reg3 ∷ symbol_table
      ∷ import_table ∷ env ∷ [])

  -- the calls of `vm_create`: the type of the machine, then the others
  unfoldable pub register_types : Gc → Result (ℕ × (VmTypes × Gc))
  unfolding ◌>>=◌ create_vm_type create_types
  register_types gc = do
    (vm_type, next) ← create_vm_type gc
    (types, last) ← create_types next
    done (vm_type, (types, last))

  -- the type with this number
  abbrev HasType : Gc → ℕ → ℕ → List ℕ → Type 0
  HasType gc type size offsets =
      get_elem? gc.types.type_defs type ≡ some (record { size = size; root_list = map ptr offsets })

  -- what the registration on a new collector gives
  abbrev pub CreatesTypes : ℕ → ℕ → Type 0
  CreatesTypes meta_bytes cell_size =
      (types : VmTypes) × (vm_type : ℕ) × (gc : Gc) × ((gc_create meta_bytes cell_size
          >>= register_types)
        ≡ done (vm_type, (types, gc)))
      × HasType gc types.pair object_size (cdr ∷ car ∷ [])
      × HasType gc types.string object_size (string_bytes ∷ [])
      × HasType gc types.vector object_size (layout.vector ∷ [])
      × HasType gc types.byte_vector object_size (layout.vector ∷ [])
      × HasType gc types.record_type object_size (layout.vector ∷ [])
      × (types.symbol ≡ 0)
      × HasType gc types.closure object_size (layout.closure ∷ [])
      × HasType gc types.env_type env_size (parent ∷ bindings ∷ code_ref ∷ [])
      × HasType gc vm_type vm_size (
          env ∷ import_table ∷ symbol_table ∷ reg3 ∷ reg2 ∷ reg1 ∷ vm_false ∷ vm_true ∷ layout.empty
          ∷ stack_root ∷ [])
      × HasType gc types.fixnum object_size []
      × HasType gc types.bool object_size []
      × HasType gc types.char object_size []
      × HasType gc types.library object_size []
      × HasType gc types.empty object_size []

  -- the layout of every kind of object but symbols, which have no type of their own
  create_types_lem : (meta_bytes cell_size : ℕ) → CreatesTypes meta_bytes cell_size
  unfolding gc_create register_types create_vm_type create_types register_struct register_pointers
      gc_register_type gc_register_pointer gc_register_array register_field ◌>>=◌
  create_types_lem meta_bytes cell_size = (
    _, _, _, refl, refl, refl, refl, refl, refl, refl, refl, refl, refl, refl, refl, refl, refl,
    refl,
  )
