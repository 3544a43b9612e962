-- ===== src/Gc/Reach.antt =====
-- What an object points to, and which objects a search may follow.
use insomniac.Base.{ℕ, ◌+◌, ◌*◌, ◌/◌, ◌<◌, ◌≤◌, ◌≡◌, ◌≢◌, ◌⊎◌, none, some, List, [], ◌∷◌, get_elem?}
use insomniac.Gc.State.{
  Pointer, Mark, perm, dead, Meta, Field, ptr, array, TypeDef, Types, Heap, array_size,
}
use insomniac.Gc.Mark.{pointer_size}

-- a pointer at one of the offsets
abbrev pub Reads : ℕ → (ℕ → Pointer) → List Field → Pointer → Type 0
Reads cells slots [] c = ⊥
Reads cells slots (ptr offset ∷ fields) c = (c ≡ slots offset) ⊎ Reads cells slots fields c
Reads cells slots (array offset ∷ fields) c =
    ((i : ℕ) × (i < cells) × (c ≡ slots (offset + pointer_size * i))) ⊎ Reads cells slots fields c

module _ (types : Types) where
  -- the object holds the pointer `c`, where its type says that a pointer is
  abbrev pub PointsTo : Meta → Pointer → Type 0
  PointsTo meta c =
      (type : ℕ) × (definition : TypeDef) × (meta.type_def ≡ some type)
      × (get_elem? types.type_defs type ≡ some definition)
      × Reads (meta.size / array_size types) meta.slots definition.root_list c

  -- an object without a type, or with one that is registered
  abbrev pub IsTyped : Meta → Type 0
  IsTyped meta =
      (meta.type_def ≡ none)
      ⊎ ((type : ℕ) × (definition : TypeDef) × (meta.type_def ≡ some type)
          × (get_elem? types.type_defs type ≡ some definition))

-- null, or an object that is allocated and not on the dead list
abbrev pub IsLive : Heap → Pointer → Type 0
IsLive h c =
    (c ≡ none) ⊎ ((p : ℕ) × (meta : Meta) × (c ≡ some p) × (h p ≡ some meta) × (meta.mark ≢ dead))

-- Null, or an object that a sweep with this mark keeps.
abbrev pub IsKept : Mark → Heap → Pointer → Type 0
IsKept mark h c =
    (c ≡ none)
    ⊎ ((p : ℕ) × (meta : Meta) × (c ≡ some p)
        × (h p ≡ some meta)
        × ((meta.mark ≡ mark) ⊎ (meta.mark ≡ perm)))

-- The heap can be searched: what is live is typed and points to live objects, addresses lie below
-- `fresh`, and no chain of permanent objects comes back to itself, as `level` drops along it. `P` goes over to what
-- an object points to.
pub record IsSearchable (types : Types) (P : ℕ → Type 0) (level : ℕ → ℕ) (top fresh : ℕ) (h : Heap)
    : Type 0 where
  pub typed : (p : ℕ) (meta : Meta) → h p ≡ some meta → meta.mark ≢ dead → IsTyped types meta
  pub live :
      (p : ℕ) (meta : Meta) (c : Pointer)
      → h p ≡ some meta
      → meta.mark ≢ dead
      → PointsTo types meta c
      → IsLive h c
  pub below : (p : ℕ) (meta : Meta) → h p ≡ some meta → p < fresh
  pub levels : (p : ℕ) → level p ≤ top
  pub drops :
      (p q : ℕ) (meta : Meta)
      → h p ≡ some meta
      → meta.mark ≡ perm
      → PointsTo types meta (some q)
      → level q < level p
  pub closed : (p q : ℕ) (meta : Meta) → h p ≡ some meta → P p → PointsTo types meta (some q) → P q

-- A chain of pointers in the heap, from a pointer to an object
pub data Reach (types : Types) (h : Heap) : Pointer → ℕ → Type 0 where
  here : {p : ℕ} → Reach types h (some p) p
  step :
      {p q : ℕ} {meta : Meta} {c : Pointer}
      → h p ≡ some meta
      → PointsTo types meta c
      → Reach types h c q
      → Reach types h (some p) q
