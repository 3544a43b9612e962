-- ===== src/Gc/Sweeping/Objects.antt =====
-- The loop of `sweep_list`.
use insomniac.Base.{
  ℕ, ◌≡◌, refl, sym, ap, subst, ◌∙◌, inl, inr, Bool-cases, some, List, [], ◌∷◌, ◌==◌, ==_iff, arith,
}
use mathlib.Core.List.{Memᴰ}
use insomniac.Gc.State.{done, Mark, same_mark, Meta, Gc}
use insomniac.Gc.Sweep.{sweep_object, sweep_objects}
use insomniac.Gc.Marking.{equal_mark, different_mark}
use insomniac.Gc.Sweeping.One.{
  IsDistinct, HasFate, Sweeps, Sweeps-nil, one, Sweeps-stays, Sweeps-dies, Sweeps-freed,
}

HasFate-later :
    (mark : Mark) (list : List ℕ) (gc gc' : Gc) (q : ℕ) (meta : Meta)
    → Sweeps mark list gc gc'
    → ¬ Memᴰ q list
    → HasFate mark gc q meta
    → HasFate mark gc' q meta
HasFate-later mark list gc gc' q meta s out (inl (m, at, i)) =
    inl (m, s.outside q out ∙ at, s.active_old q i)
HasFate-later mark list gc gc' q meta s out (inr (inl (m, e, at, i))) =
    inr (inl (m, e ∙ sym (ap Gc.cell_size s.framed), s.outside q out ∙ at, s.dead_old q i))
HasFate-later mark list gc gc' q meta s out (inr (inr (m, e, at))) =
    inr (inr (m, λ e'. e (e' ∙ ap Gc.cell_size s.framed), s.outside q out ∙ at))

module _ (mark : Mark) (p : ℕ) (list : List ℕ) (gc gc1 gc2 : Gc)
    (first : Sweeps mark (p ∷ []) gc gc1) (rest : Sweeps mark list gc1 gc2)
    (new : ¬ Memᴰ p list) where
  apart_one : {q : ℕ} → Memᴰ q list → ¬ Memᴰ q (p ∷ [])
  apart_one i j = new (subst (λ x. Memᴰ x list) (one j) i)

  Sweeps-cons : Sweeps mark (p ∷ list) gc gc2
  Sweeps-cons = record {
    outside =
        λ q i. rest.outside q (λ j. i (Memᴰ.tail j)) ∙ first.outside q (λ j. i (Memᴰ.head (one j)));
    fate = λ q meta i at. elim i [
      | Memᴰ.head e ↦
          HasFate-later mark list gc1 gc2 q meta rest (λ j. new (subst (λ x. Memᴰ x list) e j))
            (first.fate q meta (Memᴰ.head e) at)
      | Memᴰ.tail j ↦ rest.fate q meta j (first.outside q (apart_one j) ∙ at)
    ];
    active_old = λ q i. rest.active_old q (first.active_old q i);
    dead_old = λ q i. rest.dead_old q (first.dead_old q i);
    active_from = λ q i. elim (rest.active_from q i) [
      | inl j ↦ elim (first.active_from q j) [
        | inl k ↦ inl k
        | inr (k, found) ↦ inr (Memᴰ.head (one k), found)
      ]
      | inr (j, (meta, at, m)) ↦
          inr (Memᴰ.tail j, (meta, sym (first.outside q (apart_one j)) ∙ at, m))
    ];
    dead_from = λ q i. elim (rest.dead_from q i) [
      | inl j ↦ elim (first.dead_from q j) [
        | inl k ↦ inl k
        | inr (k, found) ↦ inr (Memᴰ.head (one k), found)
      ]
      | inr (j, (meta, at, m, e)) ↦ inr (
        Memᴰ.tail j,
        (meta, sym (first.outside q (apart_one j)) ∙ at, m, e ∙ ap Gc.cell_size first.framed),
      )
    ];
    framed =
        rest.framed
        ∙ ap
            (λ (g : Gc). record g {
              heap = gc2.heap;
              active_list = gc2.active_list;
              dead_list = gc2.dead_list;
              allocations = gc2.allocations;
            })
            first.framed;
    distinct_active = λ d apart.
        rest.distinct_active (first.distinct_active d (λ q i. apart q (Memᴰ.head (one i))))
          (λ q i j. elim (first.active_from q j) [
            | inl k ↦ apart q (Memᴰ.tail i) k
            | inr (k, _) ↦ apart_one i k
          ]);
    distinct_dead = λ d apart.
        rest.distinct_dead (first.distinct_dead d (λ q i. apart q (Memᴰ.head (one i)))) (λ q i j.
          elim (first.dead_from q j) [
            | inl k ↦ apart q (Memᴰ.tail i) k
            | inr (k, _) ↦ apart_one i k
          ]);
  }

Sweeps-object :
    (mark : Mark) (p : ℕ) (meta : Meta) (gc : Gc)
    → gc.heap p ≡ some meta
    → Sweeps mark (p ∷ []) gc (sweep_object mark p meta gc)
unfolding sweep_object
Sweeps-object mark p meta gc at = elim (Bool-cases (same_mark meta.mark mark)) [
  | inl same ↦ simp same (Sweeps-stays mark p meta gc at (equal_mark meta.mark mark same))
  | inr other ↦
      let differs = different_mark meta.mark mark other in
      elim (Bool-cases (meta.size == gc.cell_size)) [
        | inl cell ↦
            simp (other, cell)
              (Sweeps-dies mark p meta gc at differs ((==_iff meta.size gc.cell_size).0 cell))
        | inr size ↦
            simp (other, size)
              (Sweeps-freed mark p meta gc at differs
                (λ e. cc ((==_iff meta.size gc.cell_size).1 e, size)))
      ]
]

sweep_objects_step :
    (mark : Mark) (p : ℕ) (list : List ℕ) (meta : Meta) (gc : Gc)
    → gc.heap p ≡ some meta
    → sweep_objects mark (p ∷ list) gc ≡ sweep_objects mark list (sweep_object mark p meta gc)
unfolding sweep_objects
sweep_objects_step mark p list meta gc at = ground (arith, at)

-- The loop returns when what it goes through is allocated.
pub sweep_objects_lem :
    (mark : Mark) (list : List ℕ) (gc : Gc)
    → IsDistinct list
    → ((q : ℕ) → Memᴰ q list → (meta : Meta) × (gc.heap q ≡ some meta))
    → (gc' : Gc) × (sweep_objects mark list gc ≡ done gc') × Sweeps mark list gc gc'
unfolding sweep_objects
sweep_objects_lem mark [] gc d allocated = (gc, refl, Sweeps-nil mark gc)
sweep_objects_lem mark (p ∷ list) gc (new, d) allocated =
    let (meta, at) = allocated p (Memᴰ.head refl) in
    let gc1 = sweep_object mark p meta gc in
    let first = Sweeps-object mark p meta gc at in
    let (gc2, went, rest) = sweep_objects_lem mark list gc1 d (λ q i.
      let (other, at') = allocated q (Memᴰ.tail i) in
      (other, first.outside q (λ j. new (subst (λ x. Memᴰ x list) (one j) i)) ∙ at')) in
    (
      gc2,
      sweep_objects_step mark p list meta gc at ∙ went,
      Sweeps-cons mark p list gc gc1 gc2 first rest new,
    )
