-- ===== src/Gc/Destroy.antt =====
-- The end of a collector: `gc_destroy`.
use insomniac.Base.{
  ℕ, ◌-◌, ◌≡◌, refl, ap, subst, ◌∙◌, inl, inr, none, some, List, [], ◌∷◌, Option-cases, arith,
}
use mathlib.Core.List.{Memᴰ}
use mathlib.Core.List.Memᴰ
use insomniac.Gc.State.{done, ◌>>=◌, perm, Meta, store, Gc}
use insomniac.Gc.Types.{destroy_types}
use insomniac.Gc.Core.{destroy_list, gc_destroy}
use insomniac.Gc.Marking.{store_same, store_else}
use insomniac.Gc.Sweeping.{IsDistinct, IsWellFormed, Memᴰ-cases, inactive-dead, inactive-perm}

-- the objects of the list are freed, and nothing else
abbrev Frees : List ℕ → Gc → Gc → Type 0
Frees list gc gc' =
    ((q : ℕ) → Memᴰ q list → gc'.heap q ≡ none)
    × ((q : ℕ) → ¬ Memᴰ q list → gc'.heap q ≡ gc.heap q)
    × (gc' ≡ record gc { heap = gc'.heap; allocations = gc'.allocations })

-- `destroy_list` frees no object twice when none stands in the list twice
destroy_list_lem :
    (list : List ℕ) (gc : Gc)
    → IsDistinct list
    → ((q : ℕ) → Memᴰ q list → (meta : Meta) × (gc.heap q ≡ some meta))
    → (gc' : Gc) × (destroy_list list gc ≡ done gc') × Frees list gc gc'
unfolding destroy_list
destroy_list_lem [] gc d allocated = (gc, refl, (λ q i. absurd (Memᴰ.not-nil i), λ q i. refl, refl))
destroy_list_lem (p ∷ list) gc (new, d) allocated =
    let (meta, at) = allocated p (Memᴰ.head refl) in
    let gc1 : Gc = record gc { heap = store gc.heap p none; allocations = gc.allocations - 1 } in
    let (gc', went, (freed, kept, frame)) = destroy_list_lem list gc1 d (λ q i.
      let (other, at') = allocated q (Memᴰ.tail i) in
      (other, store_else gc.heap p q none (λ e. new (subst (λ x. Memᴰ x list) e i)) ∙ at')) in
    (
      gc',
      ground (arith, at, went),
      (
        λ q i. elim i [
          | Memᴰ.head e ↦
              kept q (λ j. new (subst (λ x. Memᴰ x list) e j))
              ∙ ap (store gc.heap p none) e
              ∙ store_same gc.heap p none
          | Memᴰ.tail j ↦ freed q j
        ],
        λ q i. kept q (λ j. i (Memᴰ.tail j)) ∙ store_else gc.heap p q none (λ e. i (Memᴰ.head e)),
        frame,
      ),
    )

-- the three lists, one after the other
lists_lem :
    (gc : Gc)
    → IsWellFormed gc
    → (last : Gc) × ((destroy_list gc.active_list gc
          >>= destroy_list gc.dead_list
          >>= destroy_list gc.perm_list)
        ≡ done last)
      × ((q : ℕ) → last.heap q ≡ none)
unfolding ◌>>=◌
lists_lem gc wf =
    let (g1, went1, (freed1, kept1, frame1)) =
      destroy_list_lem gc.active_list gc wf.distinct_active
        (λ q i. let (meta, at, _) = wf.active q i in (meta, at)) in
    let (g2, went2, (freed2, kept2, frame2)) =
      destroy_list_lem gc.dead_list g1 wf.distinct_dead (λ q i.
        let (meta, at, d, _) = wf.dying q i in
        (meta, kept1 q (inactive-dead gc wf q meta at d) ∙ at)) in
    let not_dead : (q : ℕ) (meta : Meta)
        → gc.heap q ≡ some meta
        → meta.mark ≡ perm
        → ¬ Memᴰ q gc.dead_list =
      λ q meta at p i. let (other, at', d, _) = wf.dying q i in cc (at, at', p, d) in
    let (g3, went3, (freed3, kept3, frame3)) =
      destroy_list_lem gc.perm_list g2 wf.distinct_perm (λ q i.
        let (meta, at, p) = wf.permanent q i in
        (meta, kept2 q (not_dead q meta at p) ∙ kept1 q (inactive-perm gc wf q meta at p) ∙ at)) in
    let gone2 : (q : ℕ) → g1.heap q ≡ none → g2.heap q ≡ none =
      λ q e. elim (Memᴰ-cases q gc.dead_list) [ inl i ↦ freed2 q i | inr i ↦ kept2 q i ∙ e ] in
    let gone3 : (q : ℕ) → g2.heap q ≡ none → g3.heap q ≡ none =
      λ q e. elim (Memᴰ-cases q gc.perm_list) [ inl i ↦ freed3 q i | inr i ↦ kept3 q i ∙ e ] in
    (
      g3,
      rw went1 (rw went2 went3),
      λ q. elim (Option-cases (gc.heap q)) [
        | inl e ↦ gone3 q (
            gone2 q
              elim (Memᴰ-cases q gc.active_list) [ inl i ↦ freed1 q i | inr i ↦ kept1 q i ∙ e ])
        | inr (meta, at) ↦ elim (wf.listed q meta at) [
          | inl (_, i) ↦ gone3 q (gone2 q (freed1 q i))
          | inr (inl (_, i)) ↦ gone3 q (freed2 q i)
          | inr (inr (_, i)) ↦ freed3 q i
        ]
      ],
    )

abbrev emptied : Gc → Gc
emptied last = record last {
  active_list = [];
  dead_list = [];
  perm_list = [];
  allocations = destroy_types last.types.type_defs last.allocations - 1;
}

-- `gc_destroy` of a collector with well-formed lists returns, without a second free of any
-- object, and leaves no object allocated.
pub gc_destroy_lem :
    (gc : Gc)
    → IsWellFormed gc
    → (last : Gc) × (gc_destroy gc ≡ done last) × ((q : ℕ) → last.heap q ≡ none)
unfolding gc_destroy ◌>>=◌
gc_destroy_lem gc wf =
    let (last, went, gone) = lists_lem gc wf in (emptied last, rw went refl, gone)
