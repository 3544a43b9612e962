-- ===== src/Gc/Sweeping/One.antt =====
-- What `sweep_object` does to the lists and to the heap.
use insomniac.Base.{
  ℕ, ◌-◌, ◌≡◌, ◌≢◌, ◌⊎◌, refl, ap, subst, ◌∙◌, inl, inr, none, some, List, [], ◌∷◌,
}
use mathlib.Core.List.{Memᴰ}
use mathlib.Core.List.Memᴰ
use insomniac.Gc.State.{Mark, dead, Meta, store, Gc}
use insomniac.Gc.Marking.{store_same, store_else}

-- no address stands twice in the list
abbrev pub IsDistinct : List ℕ → Type 0
IsDistinct [] = Unit
IsDistinct (p ∷ list) = (¬ Memᴰ p list) × IsDistinct list

-- What becomes of an object: it stays, it is dead, or it is freed.
abbrev pub HasFate : Mark → Gc → ℕ → Meta → Type 0
HasFate mark gc q meta =
    ((meta.mark ≡ mark) × (gc.heap q ≡ some meta) × Memᴰ q gc.active_list)
    ⊎ (((meta.mark ≢ mark)
          × (meta.size ≡ gc.cell_size)
          × (gc.heap q ≡ some (record meta { mark = dead }))
          × Memᴰ q gc.dead_list)
        ⊎ ((meta.mark ≢ mark) × (meta.size ≢ gc.cell_size) × (gc.heap q ≡ none)))

-- Only the heap, two lists and the count of the blocks change.
abbrev pub IsFramed : Gc → Gc → Type 0
IsFramed gc gc' = gc' ≡ record gc {
  heap = gc'.heap;
  active_list = gc'.active_list;
  dead_list = gc'.dead_list;
  allocations = gc'.allocations;
}

-- the objects of the list are gone through
pub record Sweeps (mark : Mark) (list : List ℕ) (gc gc' : Gc) : Type 0 where
  pub outside : (q : ℕ) → ¬ Memᴰ q list → gc'.heap q ≡ gc.heap q
  pub fate : (q : ℕ) (meta : Meta) → Memᴰ q list → gc.heap q ≡ some meta → HasFate mark gc' q meta
  pub active_old : (q : ℕ) → Memᴰ q gc.active_list → Memᴰ q gc'.active_list
  pub dead_old : (q : ℕ) → Memᴰ q gc.dead_list → Memᴰ q gc'.dead_list
  pub active_from :
      (q : ℕ)
      → Memᴰ q gc'.active_list
      → Memᴰ q gc.active_list
        ⊎ (Memᴰ q list × ((meta : Meta) × (gc.heap q ≡ some meta) × (meta.mark ≡ mark)))
  pub dead_from :
      (q : ℕ)
      → Memᴰ q gc'.dead_list
      → Memᴰ q gc.dead_list
        ⊎ (Memᴰ q list
            × ((meta : Meta) × (gc.heap q ≡ some meta)
                × (meta.mark ≢ mark)
                × (meta.size ≡ gc.cell_size)))
  pub framed : IsFramed gc gc'
  pub distinct_active :
      IsDistinct gc.active_list
      → ((q : ℕ) → Memᴰ q list → ¬ Memᴰ q gc.active_list)
      → IsDistinct gc'.active_list
  pub distinct_dead :
      IsDistinct gc.dead_list
      → ((q : ℕ) → Memᴰ q list → ¬ Memᴰ q gc.dead_list)
      → IsDistinct gc'.dead_list

pub Sweeps-nil : (mark : Mark) (gc : Gc) → Sweeps mark [] gc gc
Sweeps-nil mark gc = record {
  outside = λ q i. refl;
  fate = λ q meta i at. absurd (Memᴰ.not-nil i);
  active_old = λ q i. i;
  dead_old = λ q i. i;
  active_from = λ q i. inl i;
  dead_from = λ q i. inl i;
  framed = refl;
  distinct_active = λ d apart. d;
  distinct_dead = λ d apart. d;
}

pub one : {p q : ℕ} → Memᴰ q (p ∷ []) → q ≡ p
one i = Memᴰ.eq_of_singleton i

-- one object
module _ (mark : Mark) (p : ℕ) (meta : Meta) (gc : Gc) (at : gc.heap p ≡ some meta) where
  pub Sweeps-stays :
      meta.mark ≡ mark → Sweeps mark (p ∷ []) gc (record gc { active_list = p ∷ gc.active_list })
  Sweeps-stays marked = record {
    outside = λ q i. refl;
    fate = λ q old i was.
        let same : meta ≡ old = cc (at, was, ap gc.heap (one i)) in
        inl (subst (λ x. x.mark ≡ mark) same marked, was, Memᴰ.head (one i));
    active_old = λ q i. Memᴰ.tail i;
    dead_old = λ q i. i;
    active_from = λ q i. elim i [
      | Memᴰ.head e ↦ inr (Memᴰ.head e, (meta, ap gc.heap e ∙ at, marked))
      | Memᴰ.tail j ↦ inl j
    ];
    dead_from = λ q i. inl i;
    framed = refl;
    distinct_active = λ d apart. (apart p (Memᴰ.head refl), d);
    distinct_dead = λ d apart. d;
  }

  pub Sweeps-dies :
      meta.mark ≢ mark
      → meta.size ≡ gc.cell_size
      → Sweeps mark (p ∷ []) gc (record gc {
        heap = store gc.heap p (some (record meta { mark = dead }));
        dead_list = p ∷ gc.dead_list;
      })
  Sweeps-dies other cell = record {
    outside = λ q i. store_else gc.heap p q _ (λ e. i (Memᴰ.head e));
    fate = λ q old i was.
        let same : meta ≡ old = cc (at, was, ap gc.heap (one i)) in
        subst
          (λ x.
            HasFate mark
              (record gc {
                heap = store gc.heap p (some (record meta { mark = dead }));
                dead_list = p ∷ gc.dead_list;
              })
              q x)
          same
          (inr (
            inl (
              other,
              cell,
              ap (store gc.heap p _) (one i) ∙ store_same gc.heap p _,
              Memᴰ.head (one i),
            )));
    active_old = λ q i. i;
    dead_old = λ q i. Memᴰ.tail i;
    active_from = λ q i. inl i;
    dead_from = λ q i. elim i [
      | Memᴰ.head e ↦ inr (Memᴰ.head e, (meta, ap gc.heap e ∙ at, other, cell))
      | Memᴰ.tail j ↦ inl j
    ];
    framed = refl;
    distinct_active = λ d apart. d;
    distinct_dead = λ d apart. (apart p (Memᴰ.head refl), d);
  }

  pub Sweeps-freed :
      meta.mark ≢ mark
      → meta.size ≢ gc.cell_size
      → Sweeps mark
          (p ∷ [])
          gc
          (record gc { heap = store gc.heap p none; allocations = gc.allocations - 1 })
  Sweeps-freed other size = record {
    outside = λ q i. store_else gc.heap p q _ (λ e. i (Memᴰ.head e));
    fate = λ q old i was.
        let same : meta ≡ old = cc (at, was, ap gc.heap (one i)) in
        inr (
          inr (
            subst (λ x. x.mark ≢ mark) same other,
            subst (λ x. x.size ≢ gc.cell_size) same size,
            ap (store gc.heap p none) (one i) ∙ store_same gc.heap p none,
          ));
    active_old = λ q i. i;
    dead_old = λ q i. i;
    active_from = λ q i. inl i;
    dead_from = λ q i. inl i;
    framed = refl;
    distinct_active = λ d apart. d;
    distinct_dead = λ d apart. d;
  }

-- what happens later to other objects changes nothing for this one
