-- ===== src/Gc/Sweeping/Whole.antt =====
-- The whole of `sweep`, with the cells that it makes when the dead list is empty.
use insomniac.Base.{
  ℕ, suc, ◌+◌, ◌*◌, ◌<◌, ◌≤◌, ◌≡◌, ◌⊎◌, refl, sym, ap, subst, ◌∙◌, inl, inr, some, List, [], ◌∷◌,
  arith,
}
use mathlib.Core.List.{Memᴰ}
use mathlib.Core.List.Memᴰ
use insomniac.Gc.State.{Result, done, ◌>>=◌, Pointer, Meta, Gc}
use insomniac.Gc.Sweep.{
  collect, sweep, pre_alloc, prealloc_count, gc_protect, gc_unprotect, alloc_cells,
}
use insomniac.Gc.Marking.{mul_le}
use insomniac.Gc.Sweeping.WellFormed.{IsWellFormed}
use insomniac.Gc.Sweeping.Collect.{IsSweepable, IsInUse, collect_lem}
use insomniac.Gc.Sweeping.Follow.{Follows, Follows-trans, Follows-roots, Collects-Follows}
use insomniac.Gc.Sweeping.Cells.{
  blank_cell, IsSound, Extends-IsLive, Extends-refl, Extends-Follows, fresh-free, alloc_cells_lem,
}

prealloc_positive : 0 < prealloc_count
unfolding prealloc_count
prealloc_positive = omega arith

abbrev pub IsFilled : List ℕ → Type 0
IsFilled list = (p : ℕ) × (rest : List ℕ) × (list ≡ p ∷ rest)

pub List-cases : (list : List ℕ) → (list ≡ []) ⊎ IsFilled list
List-cases [] = inl refl
List-cases (p ∷ rest) = inr (p, rest, refl)

Memᴰ-IsFilled : {q : ℕ} (list : List ℕ) → Memᴰ q list → IsFilled list
Memᴰ-IsFilled [] i = absurd (Memᴰ.not-nil i)
Memᴰ-IsFilled (p ∷ rest) i = (p, rest, refl)

module _ (fuel depth : ℕ) (variables : ℕ → Pointer) (gc : Gc) where
  pub sweep-protected :
      (n : ℕ) → gc.protect_count ≡ suc n → sweep (suc depth) fuel variables gc ≡ done gc
  unfolding sweep
  sweep-protected n e = ground (arith, e)

  sweep-filled :
      (next : Gc)
      → gc.protect_count ≡ 0
      → collect fuel variables gc ≡ done next
      → IsFilled next.dead_list
      → sweep (suc depth) fuel variables gc ≡ done next
  unfolding sweep ◌>>=◌
  sweep-filled next e collected (p, rest, filled) = ground (arith, e, collected, filled)

  sweep-empty :
      (next : Gc)
      → gc.protect_count ≡ 0
      → collect fuel variables gc ≡ done next
      → next.dead_list ≡ []
      → sweep (suc depth) fuel variables gc ≡ pre_alloc (sweep depth fuel variables) next
  unfolding sweep ◌>>=◌
  sweep-empty next e collected empty = ground (arith, e, collected, empty)

-- the count of protection is no part of the invariant
protect-IsWellFormed :
    (gc : Gc) (n : ℕ) → IsWellFormed gc → IsWellFormed (record gc { protect_count = n })
protect-IsWellFormed gc n wf = record {
  color = wf.color;
  active = wf.active;
  dying = wf.dying;
  permanent = wf.permanent;
  listed = wf.listed;
  distinct_active = wf.distinct_active;
  distinct_dead = wf.distinct_dead;
  distinct_perm = wf.distinct_perm;
  below = wf.below;
}

module _ (variables : ℕ → Pointer) (level : ℕ → ℕ) (top fuel : ℕ) where
  -- the fuel for a heap that may grow by the cells of `pre_alloc`
  abbrev pub HasRoom : ℕ → Type 0
  HasRoom fresh = suc ((fresh + prealloc_count) * suc top + top) < fuel

  sweepable :
      (gc : Gc) (fresh : ℕ)
      → IsSound variables level top gc
      → HasRoom fresh
      → gc.fresh ≤ fresh + prealloc_count
      → IsSweepable fuel variables level top gc
  sweepable gc fresh (wf, s, roots) room le =
      let more = mul_le gc.fresh (fresh + prealloc_count) (suc top) le in
      record { well_formed = wf; traversable = s; roots = roots; enough = omega arith }

  pub Follows-IsSound :
      (gc gc' : Gc)
      → IsSound variables level top gc
      → Follows variables level top gc gc'
      → IsSound variables level top gc'
  Follows-IsSound gc gc' ok f =
      (f.well_formed, f.traversable, Follows-roots variables level top gc gc' f ok.2)

  -- what a sweep gives
  abbrev pub IsSwept : Gc → Gc → Type 0
  IsSwept gc gc' =
      Follows variables level top gc gc' × IsFilled gc'.dead_list × (gc'.protect_count ≡ 0)

  -- a sweep whose collection finds something dead, or found it before
  sweep_once :
      (depth fresh : ℕ) (gc : Gc)
      → IsSound variables level top gc
      → HasRoom fresh
      → gc.fresh ≤ fresh + prealloc_count
      → gc.protect_count ≡ 0
      → IsFilled gc.dead_list
        ⊎ ((q : ℕ) × (meta : Meta) × Memᴰ q gc.active_list
            × (gc.heap q ≡ some meta)
            × (meta.size ≡ gc.cell_size)
            × (¬ IsInUse variables gc q))
      → (gc' : Gc) × (sweep (suc depth) fuel variables gc ≡ done gc')
        × IsSwept gc gc'
        × (gc'.fresh ≡ gc.fresh)
  sweep_once depth fresh gc ok room le open_ garbage =
      let (gc', collected, c) =
        collect_lem variables level top fuel gc (sweepable gc fresh ok room le) open_ in
      let (_, _, _, dies, frame, dead_old) = c in
      let filled : IsFilled gc'.dead_list = elim garbage [
        | inl (p, rest, e) ↦
            Memᴰ-IsFilled gc'.dead_list (dead_old p (subst (Memᴰ p) (sym e) (Memᴰ.head refl)))
        | inr (q, meta, i, at, cell, idle) ↦
            let (meta', at', how) = dies q i idle in
            elim how [
              | inl (_, _, j) ↦ Memᴰ-IsFilled gc'.dead_list j
              | inr (large, _) ↦
                  let same : meta ≡ meta' = cc (at, at') in
                  absurd (large (sym (ap Meta.size same) ∙ cell))
            ]
      ] in
      (
        gc',
        sweep-filled fuel depth variables gc gc' open_ collected filled,
        (
          Collects-Follows variables level top fuel gc gc' c,
          filled,
          ap Gc.protect_count frame ∙ open_,
        ),
        ap Gc.fresh frame,
      )

  protect-Follows :
      (gc : Gc) (n : ℕ)
      → IsSound variables level top gc
      → Follows variables level top gc (record gc { protect_count = n })
  protect-Follows gc n ok =
      let same =
        Extends-Follows variables level top gc gc ok (Extends-refl variables level top gc) ok.0
          ok.1 in
      record {
        well_formed = protect-IsWellFormed gc n ok.0;
        traversable = ok.1;
        intact = same.intact;
        types = refl;
        roots = refl;
        perms = refl;
        cells = refl;
      }

  unprotect_path :
      (go : Gc → Result Gc) (gc : Gc)
      → gc.protect_count ≡ 1
      → gc.dead_list ≡ []
      → gc_unprotect go gc ≡ go (record gc { protect_count = 0 })
  unfolding gc_unprotect
  unprotect_path go gc protected empty = ground (arith, protected, empty)

  pre_alloc_path :
      (go : Gc → Result Gc) (gc gc1 gc2 gc3 : Gc)
      → alloc_cells go prealloc_count (record gc { protect_count = 1 }) ≡ done gc1
      → gc.protect_count ≡ 0
      → gc1.protect_count ≡ 1
      → gc1.dead_list ≡ []
      → go (record gc1 { protect_count = 0 }) ≡ done gc2
      → go gc2 ≡ done gc3
      → pre_alloc go gc ≡ done gc3
  unfolding pre_alloc gc_protect ◌>>=◌
  pre_alloc_path go gc gc1 gc2 gc3 made open_ protected empty swept again =
      let start : gc_protect gc ≡ record gc { protect_count = 1 } =
        ap (λ n. record gc { protect_count = suc n }) open_ in
      ap (λ r. r >>= gc_unprotect go >>= go) (ap (alloc_cells go prealloc_count) start ∙ made)
      ∙ ap (λ r. r >>= go) (unprotect_path go gc1 protected empty ∙ swept)
      ∙ again

  -- With no dead cell left, new cells are made; no object points to them, so that they die.
  pre_alloc_lem :
      (depth : ℕ) (gc : Gc)
      → IsSound variables level top gc
      → HasRoom gc.fresh
      → gc.protect_count ≡ 0
      → gc.dead_list ≡ []
      → (gc' : Gc) × (pre_alloc (sweep (suc depth) fuel variables) gc ≡ done gc') × IsSwept gc gc'
  pre_alloc_lem depth gc ok room open_ empty =
      let go = sweep (suc depth) fuel variables in
      let g1 : Gc = record gc { protect_count = 1 } in
      let f1 = protect-Follows gc 1 ok in
      let ok1 = Follows-IsSound gc g1 ok f1 in
      let (g2, made, ok2, x, f2, grown, news) =
        alloc_cells_lem variables level top go (λ g n e. sweep-protected fuel depth variables g n e)
          prealloc_count 0 g1 ok1 empty refl in
      let (at, i) = news prealloc_positive in
      let g3 : Gc = record g2 { protect_count = 0 } in
      let f3 = protect-Follows g2 0 ok2 in
      let ok3 = Follows-IsSound g2 g3 ok2 f3 in
      let idle : ¬ IsInUse variables g3 gc.fresh = λ used.
        elim (Extends-IsLive variables level top g1 g2 gc.fresh ok1 x used) [
          | inl e ↦ cc e
          | inr (p, meta, e, there, _) ↦ cc (e, there, fresh-free variables level top gc ok.0)
        ] in
      let (g4, swept, (f4, filled, open4), fresh4) =
        sweep_once depth gc.fresh g3 ok3 room (omega (arith, grown)) refl
          (inr (gc.fresh, blank_cell g1, i, at, sym (ap Gc.cell_size x.frame), idle)) in
      let ok4 = Follows-IsSound g3 g4 ok3 f4 in
      let (g5, again, (f5, filled5, open5), _) =
        sweep_once depth gc.fresh g4 ok4 room (omega (arith, grown, fresh4)) open4 (inl filled) in
      let follow = Follows-trans variables level top in
      (
        g5,
        pre_alloc_path go gc g2 g4 g5 made open_ (ap Gc.protect_count x.frame)
            (ap Gc.dead_list x.frame ∙ empty) swept again,
        (
          follow gc g4 g5 (follow gc g3 g4 (follow gc g2 g3 (follow gc g1 g2 f1 f2) f3) f4) f5,
          filled5,
          open5,
        ),
      )

  -- From a collector whose lists are well formed, whose heap can be searched and whose
  -- registered variables hold live objects, without protection, with fuel for the heap and the
  -- cells that `pre_alloc` adds, two calls of `sweep` inside one another are deep enough:
  -- `sweep` returns, the dead list has an object that can be used again, protection is off, and
  -- each object in use is still there, unchanged but for its mark.
  pub sweep_lem :
      (depth : ℕ) (gc : Gc)
      → IsSound variables level top gc
      → HasRoom gc.fresh
      → gc.protect_count ≡ 0
      → (gc' : Gc) × (sweep (suc (suc depth)) fuel variables gc ≡ done gc') × IsSwept gc gc'
  sweep_lem depth gc ok room open_ =
      let (g1, collected, c) =
        collect_lem variables level top fuel gc (sweepable gc gc.fresh ok room (omega arith))
          open_ in
      let f1 = Collects-Follows variables level top fuel gc g1 c in
      let (_, _, _, _, frame, _) = c in
      let open1 = ap Gc.protect_count frame ∙ open_ in
      elim (List-cases g1.dead_list) [
        | inr filled ↦ (
          g1,
          sweep-filled fuel (suc depth) variables gc g1 open_ collected filled,
          (f1, filled, open1),
        )
        | inl empty ↦
            let room1 : HasRoom g1.fresh = subst HasRoom (sym (ap Gc.fresh frame)) room in
            let (g2, went, (f2, filled, open2)) =
              pre_alloc_lem depth g1 (Follows-IsSound gc g1 ok f1) room1 open1 empty in
            (
              g2,
              sweep-empty fuel (suc depth) variables gc g1 open_ collected empty ∙ went,
              (Follows-trans variables level top gc g1 g2 f1 f2, filled, open2),
            )
      ]
