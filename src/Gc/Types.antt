-- ===== src/Gc/Types.antt =====
-- gc_types.c: the registration of types.
use insomniac.Base.{
  ℕ, ◌+◌, ◌-◌, ◌==◌, none, some, List, [], ◌∷◌, ◌++◌, if◌then◌else◌, get_elem?, length, set,
}
use insomniac.Gc.State.{Result, done, undefined, Field, ptr, array, TypeDef, Gc}

-- The array is copied into one that has room for the new type, which is given the next index;
-- the old array is freed.
unfoldable pub gc_register_type : ℕ → Gc → ℕ × Gc
gc_register_type size gc =
    let definitions = gc.types.type_defs in
    let new_type = length definitions in
    let allocations = if new_type == 0 then gc.allocations + 1 else gc.allocations + 1 - 1 in
    (
      new_type,
      record gc {
        types = record gc.types {
          type_defs = definitions ++ (record { size = size; root_list = [] } ∷ []);
        };
        allocations = allocations;
      },
    )

unfoldable pub register_field : Field → ℕ → Gc → Result Gc
register_field field type gc = elim (get_elem? gc.types.type_defs type) [
  | none ↦ undefined
  | some definition ↦ done (record gc {
    types = record gc.types {
      type_defs =
          set gc.types.type_defs type
            (record definition { root_list = field ∷ definition.root_list });
    };
    allocations = gc.allocations + 1;
  })
]

unfoldable pub gc_register_pointer : ℕ → ℕ → Gc → Result Gc
unfolding register_field
gc_register_pointer type offset = register_field (ptr offset) type

unfoldable pub gc_register_array : ℕ → ℕ → Gc → Result Gc
unfolding register_field
gc_register_array type offset = register_field (array offset) type

-- every pointer definition, then the array
unfoldable pub destroy_fields : List Field → ℕ → ℕ
destroy_fields [] allocations = allocations
destroy_fields (field ∷ fields) allocations = destroy_fields fields (allocations - 1)

unfoldable pub destroy_types : List TypeDef → ℕ → ℕ
unfolding destroy_fields
destroy_types [] allocations = allocations - 1
destroy_types (definition ∷ rest) allocations =
    destroy_types rest (destroy_fields definition.root_list allocations)
