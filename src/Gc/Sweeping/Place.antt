-- ===== src/Gc/Sweeping/Place.antt =====
-- A new object on its list.
use insomniac.Base.{
  ℕ, ◌<◌, ◌≤◌, ◌≡◌, ◌≢◌, ◌⊎◌, refl, sym, ap, subst, ◌∙◌, inl, inr, Bool-cases, Option, none, some,
  List, ◌∷◌, ◌==◌, ==_iff, fun_ext, arith,
}
use mathlib.Core.List.{Memᴰ}
use insomniac.Gc.State.{perm, Meta, Heap, store, Gc}
use insomniac.Gc.Marking.{store_same, store_else}
use insomniac.Gc.Sweeping.One.{IsDistinct}
use insomniac.Gc.Sweeping.WellFormed.{IsWellFormed, inactive-dead}

-- a second write at the same address
pub store_twice :
    (h : Heap) (p : ℕ) (first second : Option Meta)
    → store (store h p first) p second ≡ store h p second
store_twice h p first second = fun_ext (λ q. ground arith)

-- an object that is allocated has another address than one that is not
pub differs : (h : Heap) {p q : ℕ} {meta : Meta} → h p ≡ none → h q ≡ some meta → q ≢ p
differs h free at e = cc (free, at, ap h e)

module _ (h : Heap) (p : ℕ) (meta : Meta) (free : h p ≡ none) where
  pub store_old : (q : ℕ) (old : Meta) → h q ≡ some old → store h p (some meta) q ≡ some old
  store_old q old at = store_else h p q (some meta) (differs h free at) ∙ at

  -- what is there is the new object, or was there
  pub store-cases :
      (q : ℕ) (found : Meta)
      → store h p (some meta) q ≡ some found
      → ((q ≡ p) × (meta ≡ found)) ⊎ (h q ≡ some found)
  store-cases q found at = elim (Bool-cases (q == p)) [
    | inl eq ↦
        let e = (==_iff q p).0 eq in
        let new = store_same h p (some meta) in inl (e, cc (at, new, ap (store h p (some meta)) e))
    | inr ne ↦ inr (sym (store_else h p q (some meta) (λ e. cc ((==_iff q p).1 e, ne))) ∙ at)
  ]

pub store-none :
    (h : Heap) (p q : ℕ) (meta : Meta) → store h p none q ≡ some meta → (q ≢ p) × (h q ≡ some meta)
store-none h p q meta at =
    let ne : q ≢ p = λ e. cc (at, ap (store h p none) e, store_same h p none) in
    (ne, sym (store_else h p q none ne) ∙ at)

module _ (gc : Gc) (p fresh : ℕ) (meta : Meta) (free : gc.heap p ≡ none) (low : p < fresh)
    (grown : gc.fresh ≤ fresh) (count : ℕ) (wf : IsWellFormed gc) where
  pub place_active :
      meta.mark ≡ gc.current_mark
      → IsWellFormed (record gc {
        heap = store gc.heap p (some meta);
        fresh = fresh;
        active_list = p ∷ gc.active_list;
        allocations = count;
      })
  place_active marked = record {
    color = wf.color;
    active = λ q i. elim i [
      | Memᴰ.head e ↦
          (meta, ap (store gc.heap p (some meta)) e ∙ store_same gc.heap p (some meta), marked)
      | Memᴰ.tail j ↦
          let (old, at, m) = wf.active q j in (old, store_old gc.heap p meta free q old at, m)
    ];
    dying = λ q i.
        let (old, at, m, size) = wf.dying q i in
        (old, store_old gc.heap p meta free q old at, m, size);
    permanent = λ q i.
        let (old, at, m) = wf.permanent q i in (old, store_old gc.heap p meta free q old at, m);
    listed = λ q found at. elim (store-cases gc.heap p meta free q found at) [
      | inl (e, same) ↦ inl (sym (ap Meta.mark same) ∙ marked, Memᴰ.head e)
      | inr was ↦ elim (wf.listed q found was) [
        | inl (m, i) ↦ inl (m, Memᴰ.tail i)
        | inr rest ↦ inr rest
      ]
    ];
    distinct_active =
        (λ i. let (old, at, _) = wf.active p i in differs gc.heap free at refl, wf.distinct_active);
    distinct_dead = wf.distinct_dead;
    distinct_perm = wf.distinct_perm;
    below = λ q found at. elim (store-cases gc.heap p meta free q found at) [
      | inl (e, _) ↦ rw e low
      | inr was ↦ let lt = wf.below q found was in omega arith
    ];
  }

  pub place_perm :
      meta.mark ≡ perm
      → IsWellFormed (record gc {
        heap = store gc.heap p (some meta);
        fresh = fresh;
        perm_list = p ∷ gc.perm_list;
        allocations = count;
      })
  place_perm marked = record {
    color = wf.color;
    active =
        λ q i. let (old, at, m) = wf.active q i in (old, store_old gc.heap p meta free q old at, m);
    dying = λ q i.
        let (old, at, m, size) = wf.dying q i in
        (old, store_old gc.heap p meta free q old at, m, size);
    permanent = λ q i. elim i [
      | Memᴰ.head e ↦
          (meta, ap (store gc.heap p (some meta)) e ∙ store_same gc.heap p (some meta), marked)
      | Memᴰ.tail j ↦
          let (old, at, m) = wf.permanent q j in (old, store_old gc.heap p meta free q old at, m)
    ];
    listed = λ q found at. elim (store-cases gc.heap p meta free q found at) [
      | inl (e, same) ↦ inr (inr (sym (ap Meta.mark same) ∙ marked, Memᴰ.head e))
      | inr was ↦ elim (wf.listed q found was) [
        | inl i ↦ inl i
        | inr (inl i) ↦ inr (inl i)
        | inr (inr (m, i)) ↦ inr (inr (m, Memᴰ.tail i))
      ]
    ];
    distinct_active = wf.distinct_active;
    distinct_dead = wf.distinct_dead;
    distinct_perm = (
      λ i. let (old, at, _) = wf.permanent p i in differs gc.heap free at refl,
      wf.distinct_perm,
    );
    below = λ q found at. elim (store-cases gc.heap p meta free q found at) [
      | inl (e, _) ↦ rw e low
      | inr was ↦ let lt = wf.below q found was in omega arith
    ];
  }

-- The first object of the dead list is taken out of the list and of the heap.
pub remove_dead :
    (gc : Gc) (p : ℕ) (rest : List ℕ)
    → IsWellFormed gc
    → gc.dead_list ≡ p ∷ rest
    → IsWellFormed (record gc { heap = store gc.heap p none; dead_list = rest })
remove_dead gc p rest wf e =
    let head : Memᴰ p gc.dead_list = rw e (Memᴰ.head refl) in
    let (dying, at_p, dead_p, _) = wf.dying p head in
    let (new, distinct) = subst IsDistinct e wf.distinct_dead in
    let kept : (q : ℕ) (meta : Meta)
        → q ≢ p
        → gc.heap q ≡ some meta
        → store gc.heap p none q ≡ some meta =
      λ q meta ne at. store_else gc.heap p q none ne ∙ at in
    record {
      color = wf.color;
      active = λ q i.
          let (meta, at, m) = wf.active q i in
          (
            meta,
            kept q meta
                (λ same.
                  inactive-dead gc wf p dying at_p dead_p
                    (subst (λ x. Memᴰ x gc.active_list) same i))
                at,
            m,
          );
      dying = λ q i.
          let (meta, at, m, size) = wf.dying q (subst (Memᴰ q) (sym e) (Memᴰ.tail i)) in
          (meta, kept q meta (λ same. new (subst (λ x. Memᴰ x rest) same i)) at, m, size);
      permanent = λ q i.
          let (meta, at, m) = wf.permanent q i in
          (meta, kept q meta (λ same. cc (ap gc.heap same, at, at_p, m, dead_p)) at, m);
      listed = λ q meta at.
          let (ne, was) = store-none gc.heap p q meta at in
          elim (wf.listed q meta was) [
            | inl i ↦ inl i
            | inr (inl (d, i)) ↦ elim (subst (Memᴰ q) e i) [
              | Memᴰ.head same ↦ absurd (ne same)
              | Memᴰ.tail j ↦ inr (inl (d, j))
            ]
            | inr (inr i) ↦ inr (inr i)
          ];
      distinct_active = wf.distinct_active;
      distinct_dead = distinct;
      distinct_perm = wf.distinct_perm;
      below = λ q meta at. let (_, was) = store-none gc.heap p q meta at in wf.below q meta was;
    }
