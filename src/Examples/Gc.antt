-- ===== src/Examples/Gc.antt =====
-- A collector with a pair that points to an object, garbage and a permanent object.
use insomniac.Base.{
  ℕ, zero, suc, ◌<◌, ◌≡◌, ◌⊎◌, refl, sym, ap, subst, inl, inr, false, none, some, List, [], ◌∷◌,
  if◌then◌else◌, ◌==◌, ==_iff, arith,
}
use mathlib.Core.List.{Memᴰ}
use mathlib.Core.List.Memᴰ
use insomniac.Gc.State.{
  done, unfinished, Pointer, red, perm, dead, Meta, ptr, array, TypeDef, Types, Heap, Gc,
}
use insomniac.Gc.Mark.{mark_graph}
use insomniac.Gc.Reach.{Reads, PointsTo, IsTyped, IsLive}
use insomniac.Gc.Marking.{IsTraversable}
use insomniac.Gc.Sweep.{sweep, collect, gc_alloc, prealloc_count}
use insomniac.Gc.Core.{gc_destroy, gc_unregister_root, gc_de_perm}
use insomniac.Gc.Sweeping.{
  IsWellFormed, IsSound, Collects, collect_lem, IsSwept, HasRoom, sweep_lem, IsAllocated,
  gc_alloc_lem,
}
use insomniac.Gc.Roots.{gc_unregister_root_lem}
use insomniac.Gc.Perm.{gc_de_perm_lem}
use insomniac.Gc.Create.{mark_graph-loop}
use insomniac.Gc.Destroy.{gc_destroy_lem}

abbrev pair : TypeDef
pair = record { size = 16; root_list = ptr 8 ∷ ptr 0 ∷ [] }

abbrev types : Types
types = record {
  type_defs = record { size = 8; root_list = array 0 ∷ [] } ∷ pair ∷ [];
  array_type = 0;
}

-- the object with the address 1 is in the car
abbrev first : Meta
first = record {
  mark = red;
  size = 16;
  type_def = some 1;
  slots = λ offset. if offset == 0 then some 1 else none;
}

abbrev plain : Meta
plain = record { mark = red; size = 16; type_def = none; slots = λ _. none }

abbrev fixed : Meta
fixed = record { mark = perm; size = 16; type_def = none; slots = λ _. none }

abbrev cells : Heap
cells zero = some first
cells (suc zero) = some plain
cells (suc (suc zero)) = some plain
cells (suc (suc (suc zero))) = some fixed
cells (suc (suc (suc (suc _)))) = none

-- 2 is garbage
abbrev sample : Gc
sample = record {
  heap = cells;
  fresh = 4;
  active_list = 0 ∷ 1 ∷ 2 ∷ [];
  dead_list = [];
  perm_list = 3 ∷ [];
  root_list = 7 ∷ [];
  types = types;
  cell_size = 16;
  size_granularity = 48;
  protect_count = 0;
  allocations = 9;
  current_mark = red;
}

abbrev variables : ℕ → Pointer
variables v = if v == 7 then some 0 else none

abbrev level : ℕ → ℕ
level _ = 0

first-points : (c : Pointer) → PointsTo types first c → (c ≡ none) ⊎ (c ≡ some 1)
first-points c (t, d, e, f, r) =
    let t' : 1 ≡ t = cc e in
    let d' : pair ≡ d = cc (f, t') in
    let r' = subst (λ (x : TypeDef). Reads 2 first.slots x.root_list c) (sym d') r in
    elim r' [ inl e1 ↦ inl e1 | inr (inl e2) ↦ inr e2 | inr (inr e3) ↦ absurd e3 ]

plain-points : (c : Pointer) → ¬ PointsTo types plain c
plain-points c (t, d, e, _, _) = cc e

fixed-points : (c : Pointer) → ¬ PointsTo types fixed c
fixed-points c (t, d, e, _, _) = cc e

-- what the three kinds of objects have, each object has
cells-each :
    (P : Meta → Type 0)
    → P first
    → P plain
    → P fixed
    → (q : ℕ) (meta : Meta) → cells q ≡ some meta
    → P meta
cells-each P a b c zero meta at = let e : first ≡ meta = cc at in subst P e a
cells-each P a b c (suc zero) meta at = let e : plain ≡ meta = cc at in subst P e b
cells-each P a b c (suc (suc zero)) meta at = let e : plain ≡ meta = cc at in subst P e b
cells-each P a b c (suc (suc (suc zero))) meta at = let e : fixed ≡ meta = cc at in subst P e c
cells-each P a b c (suc (suc (suc (suc _)))) meta at = absurd (cc at)

cells-below : (q : ℕ) (meta : Meta) → cells q ≡ some meta → q < 4
cells-below zero meta at = omega arith
cells-below (suc zero) meta at = omega arith
cells-below (suc (suc zero)) meta at = omega arith
cells-below (suc (suc (suc zero))) meta at = omega arith
cells-below (suc (suc (suc (suc _)))) meta at = absurd (cc at)

abbrev IsOther : ℕ → List ℕ → Type 0
IsOther p [] = Unit
IsOther p (q ∷ list) = ((p == q) ≡ false) × IsOther p list

not_in : (p : ℕ) (list : List ℕ) → IsOther p list → ¬ Memᴰ p list
not_in p [] tt i = Memᴰ.not-nil i
not_in p (q ∷ list) (ne, more) (Memᴰ.head e) = cc ((==_iff p q).1 e, ne)
not_in p (q ∷ list) (ne, more) (Memᴰ.tail i) = not_in p list more i

sample-IsWellFormed : IsWellFormed sample
sample-IsWellFormed = record {
  color = inl refl;
  active = λ q i. elim i [
    | Memᴰ.head e ↦ (first, ap cells e, refl)
    | Memᴰ.tail j ↦ elim j [
      | Memᴰ.head e ↦ (plain, ap cells e, refl)
      | Memᴰ.tail k ↦ (plain, ap cells (Memᴰ.eq_of_singleton k), refl)
    ]
  ];
  dying = λ q i. absurd (Memᴰ.not-nil i);
  permanent = λ q i. (fixed, ap cells (Memᴰ.eq_of_singleton i), refl);
  listed = sample-listed;
  distinct_active = (
    not_in 0 (1 ∷ 2 ∷ []) (refl, (refl, tt)),
    (not_in 1 (2 ∷ []) (refl, tt), (Memᴰ.not-nil, tt)),
  );
  distinct_dead = tt;
  distinct_perm = (Memᴰ.not-nil, tt);
  below = cells-below;
}
  where
    sample-listed :
        (q : ℕ) (meta : Meta)
        → cells q ≡ some meta
        → ((meta.mark ≡ red) × Memᴰ q sample.active_list)
          ⊎ (((meta.mark ≡ dead) × Memᴰ q sample.dead_list)
              ⊎ ((meta.mark ≡ perm) × Memᴰ q sample.perm_list))
    sample-listed zero meta at =
        let e : first ≡ meta = cc at in inl (sym (ap Meta.mark e), Memᴰ.head refl)
    sample-listed (suc zero) meta at =
        let e : plain ≡ meta = cc at in inl (sym (ap Meta.mark e), Memᴰ.tail (Memᴰ.head refl))
    sample-listed (suc (suc zero)) meta at =
        let e : plain ≡ meta = cc at in
        inl (sym (ap Meta.mark e), Memᴰ.tail (Memᴰ.tail (Memᴰ.head refl)))
    sample-listed (suc (suc (suc zero))) meta at =
        let e : fixed ≡ meta = cc at in inr (inr (sym (ap Meta.mark e), Memᴰ.head refl))
    sample-listed (suc (suc (suc (suc _)))) meta at = absurd (cc at)

sample-IsTraversable : IsTraversable types level 0 4 cells
sample-IsTraversable = record {
  typed = λ p meta at _.
      cells-each (λ m. IsTyped types m) (inr (1, pair, refl, refl)) (inl refl) (inl refl) p meta at;
  live = λ p meta c at _ points.
      cells-each (λ m. PointsTo types m c → IsLive cells c)
        (λ r. elim (first-points c r) [
          | inl e ↦ inl e
          | inr e ↦ inr (1, plain, e, refl, λ d. cc d)
        ])
        (λ r. absurd (plain-points c r)) (λ r. absurd (fixed-points c r)) p meta at points;
  below = cells-below;
  levels = λ p. omega arith;
  drops = λ p q meta at permanent points.
      cells-each (λ m. m.mark ≡ perm → PointsTo types m (some q) → level q < level p) (λ m. cc m)
        (λ m. cc m) (λ _ r. absurd (fixed-points (some q) r)) p meta at permanent points;
  closed = λ p q meta at may points. tt;
}

sample-IsSound : IsSound variables level 0 sample
sample-IsSound = (
  sample-IsWellFormed,
  sample-IsTraversable,
  λ r i. inr (0, first, ap variables (Memᴰ.eq_of_singleton i), refl, λ d. cc d),
)

sample_room : HasRoom variables level 0 2000 4
unfolding prealloc_count
sample_room = omega arith

gc_alloc_example :
    (p : ℕ) × (gc' : Gc) × (gc_alloc (sweep 2 2000 variables) false 16 sample ≡ done (p, gc'))
    × IsAllocated variables level 0 false 16 sample p gc'
gc_alloc_example = gc_alloc_lem variables level 0 false 16 2000 0 sample sample-IsSound sample_room

sweep_example :
    (gc' : Gc) × (sweep 2 2000 variables sample ≡ done gc')
    × IsSwept variables level 0 2000 sample gc'
sweep_example = sweep_lem variables level 0 2000 0 sample sample-IsSound sample_room refl

collect_example :
    (gc' : Gc) × (collect 6 variables sample ≡ done gc') × Collects variables level 0 6 sample gc'
collect_example =
    collect_lem variables level 0 6 sample
      (record {
        well_formed = sample-IsWellFormed;
        traversable = sample-IsTraversable;
        roots = sample-IsSound.2;
        enough = omega arith;
      })
      refl

gc_destroy_example : (last : Gc) × (gc_destroy sample ≡ done last) × ((q : ℕ) → last.heap q ≡ none)
gc_destroy_example = gc_destroy_lem sample sample-IsWellFormed

gc_de_perm_example :
    (gc' : Gc) × (gc_de_perm 3 sample ≡ done gc')
    × IsWellFormed gc'
    × (gc'.heap 3 ≡ some (record fixed { mark = red }))
    × (gc'.active_list ≡ 3 ∷ sample.active_list)
    × (¬ Memᴰ 3 gc'.perm_list)
gc_de_perm_example = gc_de_perm_lem sample 3 fixed sample-IsWellFormed refl refl

abbrev three_roots : Gc
three_roots = record sample { root_list = 5 ∷ 6 ∷ 7 ∷ [] }

gc_unregister_root_example :
    gc_unregister_root 6 three_roots
    ≡ done (record three_roots { root_list = 5 ∷ 7 ∷ []; allocations = 8 })
gc_unregister_root_example =
    gc_unregister_root_lem 6 (5 ∷ []) (7 ∷ []) three_roots refl (not_in 6 (5 ∷ []) (refl, tt))

-- a permanent pair whose first pointer leads to itself
abbrev circle : Meta
circle = record { mark = perm; size = 16; type_def = some 1; slots = λ _. some 0 }

mark_graph-loop_example :
    mark_graph types red 1000 (λ q. if q == 0 then some circle else none) (some 0) ≡ unfinished
mark_graph-loop_example =
    mark_graph-loop types red 1000 (λ q. if q == 0 then some circle else none) 0 1 8 circle pair
      (ptr 0 ∷ []) (inl refl) refl refl refl refl refl refl
