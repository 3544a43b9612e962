-- ===== src/Gc/Sweeping/Cells.antt =====
-- The cells that `pre_alloc` makes under protection.
use insomniac.Base.{
  ℕ, zero, suc, ◌+◌, ◌<◌, ◌≡◌, refl, sym, ap, subst, ◌∙◌, inl, inr, false, none, some, [], ◌∷◌,
  ==_refl, arith, Option-cases,
}
use mathlib.Core.List.{Memᴰ}
use insomniac.Gc.State.{Result, done, ◌>>=◌, Pointer, Meta, store, Gc}
use insomniac.Gc.Sweep.{attach, attach_new, take_dead, internal_alloc, gc_alloc, alloc_cells}
use insomniac.Gc.Reach.{PointsTo, IsLive, Reach, here, step}
use insomniac.Gc.Marking.{IsTraversable, store_same}
use insomniac.Gc.Sweeping.WellFormed.{IsWellFormed}
use insomniac.Gc.Sweeping.Collect.{IsInUse}
use insomniac.Gc.Sweeping.Place.{store_twice, store_old, store-cases, place_active}
use insomniac.Gc.Sweeping.Follow.{Follows, Follows-roots, Follows-trans}

-- a cell without a type
abbrev pub blank_cell : Gc → Meta
blank_cell gc = record {
  mark = gc.current_mark;
  size = gc.cell_size;
  type_def = none;
  slots = λ _. none;
}

-- one more cell
abbrev pub grow : Gc → Gc
grow gc = record gc {
  heap = store gc.heap gc.fresh (some (blank_cell gc));
  fresh = suc gc.fresh;
  active_list = gc.fresh ∷ gc.active_list;
  allocations = gc.allocations + 1;
}

-- What was allocated is as it was, and the roots are the same.
pub record Extends (gc gc' : Gc) : Type 0 where
  pub old : (q : ℕ) (meta : Meta) → gc.heap q ≡ some meta → gc'.heap q ≡ some meta
  pub active : (q : ℕ) → Memᴰ q gc.active_list → Memᴰ q gc'.active_list
  pub frame : gc' ≡ record gc {
    heap = gc'.heap;
    fresh = gc'.fresh;
    active_list = gc'.active_list;
    allocations = gc'.allocations;
  }

module _ (variables : ℕ → Pointer) (level : ℕ → ℕ) (top : ℕ) where
  -- the parts of the invariant that do not speak of the fuel
  abbrev pub IsSound : Gc → Type 0
  IsSound gc =
      IsWellFormed gc
      × IsTraversable gc.types level top gc.fresh gc.heap
      × ((r : ℕ) → Memᴰ r gc.root_list → IsLive gc.heap (variables r))

  -- along a chain in the larger heap, everything is live in the smaller one
  chain-IsLive :
      (gc gc' : Gc) {c : Pointer} {q : ℕ}
      → IsSound gc
      → Extends gc gc'
      → IsLive gc.heap c
      → Reach gc.types gc'.heap c q
      → IsLive gc.heap (some q)
  chain-IsLive gc gc' ok x live here = live
  chain-IsLive gc gc' ok x (inl e) (step at points more) = absurd (cc e)
  chain-IsLive gc gc' ok x (inr (p', meta', e, at', alive))
        (step {p} {q} {meta} {c} at points more) =
      let at_p : gc.heap p ≡ some meta' = cc (e, at') in
      let same : meta ≡ meta' = cc (at, x.old p meta' at_p) in
      chain-IsLive gc gc' ok x
        (ok.1.live p meta' c at_p alive (subst (λ x'. PointsTo gc.types x' c) same points)) more

  pub Extends-IsLive :
      (gc gc' : Gc) (q : ℕ)
      → IsSound gc
      → Extends gc gc'
      → IsInUse variables gc' q
      → IsLive gc.heap (some q)
  Extends-IsLive gc gc' q ok x used =
      let types = ap Gc.types x.frame in
      elim used [
        | inl (r, i, chain) ↦
            chain-IsLive gc gc' ok x (ok.2 r (subst (Memᴰ r) (ap Gc.root_list x.frame) i))
              (subst (λ t. Reach t gc'.heap (variables r) q) types chain)
        | inr (r, i, chain) ↦
            let (meta, at, permanent) =
              ok.0.permanent r (subst (Memᴰ r) (ap Gc.perm_list x.frame) i) in
            chain-IsLive gc gc' ok x (inr (r, meta, refl, at, cc permanent))
              (subst (λ t. Reach t gc'.heap (some r) q) types chain)
      ]

  pub Extends-refl : (gc : Gc) → Extends gc gc
  Extends-refl gc = record { old = λ q meta at. at; active = λ q i. i; frame = refl }

  pub Extends-trans : (gc gc1 gc2 : Gc) → Extends gc gc1 → Extends gc1 gc2 → Extends gc gc2
  Extends-trans gc gc1 gc2 x y = record {
    old = λ q meta at. y.old q meta (x.old q meta at);
    active = λ q i. y.active q (x.active q i);
    frame =
        y.frame
        ∙ ap
            (λ (g : Gc). record g {
              heap = gc2.heap;
              fresh = gc2.fresh;
              active_list = gc2.active_list;
              allocations = gc2.allocations;
            })
            x.frame;
  }

  -- the address of the next block is not in use
  pub fresh-free : (gc : Gc) → IsWellFormed gc → gc.heap gc.fresh ≡ none
  fresh-free gc wf = elim (Option-cases (gc.heap gc.fresh)) [
    | inl e ↦ e
    | inr (meta, at) ↦ let lt = wf.below gc.fresh meta at in absurd (omega arith)
  ]

  grow-Extends : (gc : Gc) → IsWellFormed gc → Extends gc (grow gc)
  grow-Extends gc wf = record {
    old = λ q meta at. store_old gc.heap gc.fresh (blank_cell gc) (fresh-free gc wf) q meta at;
    active = λ q i. Memᴰ.tail i;
    frame = refl;
  }

  -- what is larger by active objects is a later state, when it is well formed
  pub Extends-Follows :
      (gc gc' : Gc)
      → IsSound gc
      → Extends gc gc'
      → IsWellFormed gc'
      → IsTraversable gc'.types level top gc'.fresh gc'.heap
      → Follows variables level top gc gc'
  Extends-Follows gc gc' ok x wf s = record {
    well_formed = wf;
    traversable = s;
    intact = λ q used. elim (Extends-IsLive gc gc q ok (Extends-refl gc) used) [
      | inl e ↦ absurd (cc e)
      | inr (p, meta, e, at, alive) ↦
          let at_q : gc.heap q ≡ some meta = cc (e, at) in
          let now = x.old q meta at_q in
          (
            meta,
            meta.mark,
            at_q,
            alive,
            now,
            elim (wf.listed q meta now) [
              | inl (_, i) ↦ inl i
              | inr (inl (d, _)) ↦ absurd (alive d)
              | inr (inr (_, i)) ↦ inr i
            ],
          )
    ];
    types = ap Gc.types x.frame;
    roots = ap Gc.root_list x.frame;
    perms = ap Gc.perm_list x.frame;
    cells = ap Gc.cell_size x.frame;
  }

  grow-IsTraversable :
      (gc : Gc) → IsSound gc → IsTraversable gc.types level top (suc gc.fresh) (grow gc).heap
  grow-IsTraversable gc (wf, s, _) =
      let free = fresh-free gc wf in
      let found = store-cases gc.heap gc.fresh (blank_cell gc) free in
      record {
        typed = λ p meta at alive. elim (found p meta at) [
          | inl (_, same) ↦ inl (sym (ap Meta.type_def same))
          | inr was ↦ s.typed p meta was alive
        ];
        live = λ p meta c at alive points. elim (found p meta at) [
          | inl (_, same) ↦ (let (_, _, e, _, _) = points in absurd (cc (same, e)))
          | inr was ↦ elim (s.live p meta c was alive points) [
            | inl e ↦ inl e
            | inr (q, other, e, at', alive') ↦
                inr
                  (q, other, e, store_old gc.heap gc.fresh (blank_cell gc) free q other at', alive')
          ]
        ];
        below = λ p meta at. elim (found p meta at) [
          | inl (e, _) ↦ omega (arith, e)
          | inr was ↦ let lt = s.below p meta was in omega arith
        ];
        levels = s.levels;
        drops = λ p q meta at permanent points. elim (found p meta at) [
          | inl (_, same) ↦ (let (_, _, e, _, _) = points in absurd (cc (same, e)))
          | inr was ↦ s.drops p q meta was permanent points
        ];
        closed = λ p q meta at may points. tt;
      }

  grow-IsWellFormed : (gc : Gc) → IsWellFormed gc → IsWellFormed (grow gc)
  grow-IsWellFormed gc wf =
      place_active gc gc.fresh (suc gc.fresh) (blank_cell gc) (fresh-free gc wf) (omega arith)
        (omega arith) (gc.allocations + 1) wf refl

  grow-Follows : (gc : Gc) → IsSound gc → Follows variables level top gc (grow gc)
  grow-Follows gc ok =
      Extends-Follows gc (grow gc) ok (grow-Extends gc ok.0) (grow-IsWellFormed gc ok.0)
        (grow-IsTraversable gc ok)

  grow-IsSound : (gc : Gc) → IsSound gc → IsSound (grow gc)
  grow-IsSound gc ok = (
    grow-IsWellFormed gc ok.0,
    grow-IsTraversable gc ok,
    Follows-roots variables level top gc (grow gc) (grow-Follows gc ok) ok.2,
  )

  module _ (go : Gc → Result Gc)
      (still : (g : Gc) (n : ℕ) → g.protect_count ≡ suc n → go g ≡ done g) where
    gc_alloc-cell :
        (gc : Gc) (n : ℕ)
        → gc.dead_list ≡ []
        → gc.protect_count ≡ suc n
        → gc_alloc go false gc.cell_size gc ≡ done (gc.fresh, grow gc)
    unfolding gc_alloc internal_alloc take_dead attach_new attach ◌>>=◌
    gc_alloc-cell gc n empty protected =
        ground
          (arith, empty, still gc n protected, ==_refl gc.cell_size, store_twice gc.heap gc.fresh)

    pub alloc_cells_lem :
        (count n : ℕ) (gc : Gc)
        → IsSound gc
        → gc.dead_list ≡ []
        → gc.protect_count ≡ suc n
        → (gc' : Gc) × (alloc_cells go count gc ≡ done gc')
          × IsSound gc'
          × Extends gc gc'
          × Follows variables level top gc gc'
          × (gc'.fresh ≡ gc.fresh + count)
          × (0 < count → (gc'.heap gc.fresh ≡ some (blank_cell gc)) × Memᴰ gc.fresh gc'.active_list)
    unfolding alloc_cells ◌>>=◌
    alloc_cells_lem zero n gc ok empty protected = (
      gc,
      refl,
      ok,
      Extends-refl gc,
      Extends-Follows gc gc ok (Extends-refl gc) ok.0 ok.1,
      omega arith,
      λ lt. absurd (omega arith),
    )
    alloc_cells_lem (suc count) n gc ok empty protected =
        let (gc', went, ok', x, f, low, _) =
          alloc_cells_lem count n (grow gc) (grow-IsSound gc ok) empty protected in
        (
          gc',
          rw (gc_alloc-cell gc n empty protected) went,
          ok',
          Extends-trans gc (grow gc) gc' (grow-Extends gc ok.0) x,
          Follows-trans variables level top gc (grow gc) gc' (grow-Follows gc ok) f,
          omega arith,
          λ lt. (
            x.old gc.fresh (blank_cell gc) (store_same gc.heap gc.fresh (some (blank_cell gc))),
            x.active gc.fresh (Memᴰ.head refl),
          ),
        )
