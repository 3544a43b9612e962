-- ===== src/Gc/Sweeping/Follow.antt =====
-- What stays true from one collection to the next.
use insomniac.Base.{ℕ, suc, ◌+◌, ◌*◌, ◌<◌, ◌≡◌, refl, sym, ap, subst, ◌∙◌, inl, inr, some}
use mathlib.Core.List.{Memᴰ}
use insomniac.Gc.State.{Pointer, Meta, Gc}
use insomniac.Gc.Reach.{PointsTo, IsLive, Reach, here, step}
use insomniac.Gc.Marking.{IsTraversable, IsReached-next}
use insomniac.Gc.Sweeping.WellFormed.{IsWellFormed}
use insomniac.Gc.Sweeping.Collect.{IsSweepable, IsInUse, IsIntact, Collects}

-- `gc'` comes after `gc`, with the same roots: what was in use is intact.
pub record Follows (variables : ℕ → Pointer) (level : ℕ → ℕ) (top : ℕ) (gc gc' : Gc) : Type 0 where
  pub well_formed : IsWellFormed gc'
  pub traversable : IsTraversable gc'.types level top gc'.fresh gc'.heap
  pub intact : (q : ℕ) → IsInUse variables gc q → IsIntact gc gc' q
  pub types : gc'.types ≡ gc.types
  pub roots : gc'.root_list ≡ gc.root_list
  pub perms : gc'.perm_list ≡ gc.perm_list
  pub cells : gc'.cell_size ≡ gc.cell_size

module _ (variables : ℕ → Pointer) (level : ℕ → ℕ) (top : ℕ) where
  abbrev pub IsStep : Gc → Gc → Type 0
  IsStep = Follows variables level top

  -- a chain from an object in use, in the later heap
  chain-later :
      (gc gc' : Gc) {c : Pointer} {q : ℕ}
      → IsStep gc gc'
      → ((p : ℕ) → c ≡ some p → IsInUse variables gc p)
      → Reach gc.types gc.heap c q
      → Reach gc.types gc'.heap c q
  chain-later gc gc' f used here = here
  chain-later gc gc' f used (step {p} {q} {meta} {c} at points more) =
      let (old, mark, was, _, now, _) = f.intact p (used p refl) in
      let e : meta ≡ old = cc (at, was) in
      step now (subst (λ x. PointsTo gc.types x c) e points) (
        chain-later gc gc' f
          (λ r e'.
            IsReached-next gc.types gc.heap variables gc.root_list gc.perm_list p r meta at
              (used p refl) (subst (PointsTo gc.types meta) e' points))
          more)

  -- what is in use stays in use
  pub IsInUse-later :
      (gc gc' : Gc) (q : ℕ) → IsStep gc gc' → IsInUse variables gc q → IsInUse variables gc' q
  IsInUse-later gc gc' q f used =
      let e = f.types in
      let roots = f.roots in
      let perms = f.perms in
      elim used [
        | inl (r, i, chain) ↦ inl (
          r,
          subst (Memᴰ r) (sym roots) i,
          subst (λ x. Reach x gc'.heap (variables r) q) (sym e)
              (chain-later gc gc' f
                (λ p e'. inl (r, i, subst (λ x. Reach gc.types gc.heap x p) (sym e') here)) chain),
        )
        | inr (r, i, chain) ↦ inr (
          r,
          subst (Memᴰ r) (sym perms) i,
          subst (λ x. Reach x gc'.heap (some r) q) (sym e)
              (chain-later gc gc' f
                (λ p e'. inr (r, i, subst (λ x. Reach gc.types gc.heap x p) (sym e') here)) chain),
        )
      ]

  pub Follows-trans : (gc gc1 gc2 : Gc) → IsStep gc gc1 → IsStep gc1 gc2 → IsStep gc gc2
  Follows-trans gc gc1 gc2 f g = record {
    well_formed = g.well_formed;
    traversable = g.traversable;
    intact = λ q used.
        let (meta, mark, was, alive, now, _) = f.intact q used in
        let (meta', mark', was', alive', now', where_) =
          g.intact q (IsInUse-later gc gc1 q f used) in
        let e : record meta { mark = mark } ≡ meta' = cc (now, was') in
        (
          meta,
          mark',
          was,
          alive',
          now' ∙ sym (ap (λ (m : Meta). some (record m { mark = mark' })) e),
          where_,
        );
    types = g.types ∙ f.types;
    roots = g.roots ∙ f.roots;
    perms = g.perms ∙ f.perms;
    cells = g.cells ∙ f.cells;
  }

  -- what the roots hold stays live
  pub Follows-roots :
      (gc gc' : Gc)
      → IsStep gc gc'
      → ((r : ℕ) → Memᴰ r gc.root_list → IsLive gc.heap (variables r))
      → (r : ℕ) → Memᴰ r gc'.root_list
      → IsLive gc'.heap (variables r)
  Follows-roots gc gc' f live r i =
      let i' = subst (Memᴰ r) f.roots i in
      elim (live r i') [
        | inl e ↦ inl e
        | inr (p, meta, e, at, alive) ↦
            let (old, mark, _, alive', now, _) =
              f.intact p (inl (r, i', subst (λ x. Reach gc.types gc.heap x p) (sym e) here)) in
            inr (p, record old { mark = mark }, e, now, alive')
      ]

  pub Follows-IsSweepable :
      (fuel : ℕ) (gc gc' : Gc)
      → IsStep gc gc'
      → IsSweepable fuel variables level top gc
      → suc (gc'.fresh * suc top + top) < fuel
      → IsSweepable fuel variables level top gc'
  Follows-IsSweepable fuel gc gc' f ok enough = record {
    well_formed = f.well_formed;
    traversable = f.traversable;
    roots = Follows-roots gc gc' f ok.roots;
    enough = enough;
  }

  pub Collects-Follows :
      (fuel : ℕ) (gc gc' : Gc) → Collects variables level top fuel gc gc' → IsStep gc gc'
  Collects-Follows fuel gc gc' (wf, s, intact, _, frame, _) = record {
    well_formed = wf;
    traversable =
        subst (λ (x : Gc). IsTraversable x.types level top x.fresh gc'.heap) (sym frame) s;
    intact = intact;
    types = ap Gc.types frame;
    roots = ap Gc.root_list frame;
    perms = ap Gc.perm_list frame;
    cells = ap Gc.cell_size frame;
  }
