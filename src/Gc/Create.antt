-- ===== src/Gc/Create.antt =====
-- A new collector, and a permanent object that points to itself.
use insomniac.Base.{ℕ, zero, suc, ◌≡◌, refl, inl, some, List, ◌∷◌, get_elem?, fun_ext, arith}
use mathlib.Core.List.Memᴰ
use insomniac.Gc.State.{
  done, unfinished, ◌>>=◌, Pointer, Mark, perm, Meta, Field, ptr, TypeDef, Types, Heap, store, Gc,
  array_size,
}
use insomniac.Gc.Types.{gc_register_type, gc_register_array, register_field}
use insomniac.Gc.Core.{gc_create}
use insomniac.Gc.Mark.{mark_object, mark_fields, mark_typed, mark_meta, mark_graph, pointer_size}
use insomniac.Gc.Marking.{IsColor}
use insomniac.Gc.Sweeping.{IsSound}

-- A new collector has well-formed lists, a heap that can be searched, and roots that are live,
-- for any variables; protection is off, and the type of arrays has the size of a pointer.
pub gc_create_lem :
    (meta_bytes cell_size : ℕ) (variables : ℕ → Pointer) (level : ℕ → ℕ) (top : ℕ)
    → ((p : ℕ) → level p ≡ 0)
    → (gc : Gc) × (gc_create meta_bytes cell_size ≡ done gc)
      × IsSound variables level top gc
      × (array_size gc.types ≡ pointer_size)
      × (gc.protect_count ≡ 0)
unfolding gc_create gc_register_type gc_register_array register_field
gc_create_lem meta_bytes cell_size variables level top flat = (
  _,
  refl,
  (
    record {
      color = inl refl;
      active = λ q i. absurd (Memᴰ.not-nil i);
      dying = λ q i. absurd (Memᴰ.not-nil i);
      permanent = λ q i. absurd (Memᴰ.not-nil i);
      listed = λ q meta at. absurd (cc at);
      distinct_active = tt;
      distinct_dead = tt;
      distinct_perm = tt;
      below = λ q meta at. absurd (cc at);
    },
    record {
      typed = λ p meta at alive. absurd (cc at);
      live = λ p meta c at alive points. absurd (cc at);
      below = λ p meta at. absurd (cc at);
      levels = λ p. omega (arith, flat p);
      drops = λ p q meta at permanent points. absurd (cc at);
      closed = λ p q meta at may points. tt;
    },
    λ r i. absurd (Memᴰ.not-nil i),
  ),
  refl,
  refl,
)

-- Marking from a permanent object whose first pointer leads to the object itself uses up any
-- fuel: the recursion of the source does not end.
pub mark_graph-loop :
    (types : Types) (mark : Mark) (fuel : ℕ) (h : Heap) (p type offset : ℕ) (meta : Meta)
    (definition : TypeDef) (fields : List Field)
    → IsColor mark
    → h p ≡ some meta
    → meta.mark ≡ perm
    → meta.type_def ≡ some type
    → get_elem? types.type_defs type ≡ some definition
    → definition.root_list ≡ ptr offset ∷ fields
    → meta.slots offset ≡ some p
    → mark_graph types mark fuel h (some p) ≡ unfinished
unfolding mark_graph mark_meta mark_typed mark_fields mark_object ◌>>=◌
mark_graph-loop types mark zero h p type offset meta definition fields color at permanent typed
      found first self =
    refl
mark_graph-loop types mark (suc fuel) h p type offset meta definition fields color at permanent
      typed found first self =
    let again =
      mark_graph-loop types mark fuel h p type offset meta definition fields color at permanent
        typed found first self in
    let same : store h p (some meta) ≡ h = fun_ext (λ q. ground (arith, at)) in
    ground (arith, color, at, permanent, typed, found, first, self, same, again)
