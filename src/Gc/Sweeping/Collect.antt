-- ===== src/Gc/Sweeping/Collect.antt =====
-- One collection: `sweep` up to the call of `pre_alloc`.
use insomniac.Base.{
  ℕ, suc, ◌+◌, ◌*◌, ◌<◌, ◌≡◌, ◌≢◌, ◌⊎◌, refl, sym, ap, subst, ◌∙◌, inl, inr, none, some, arith,
}
use mathlib.Core.List.{Memᴰ}
use insomniac.Gc.State.{done, ◌>>=◌, Pointer, Mark, perm, dead, Meta, Heap, Gc}
use insomniac.Gc.Mark.{mark_list, mark_root}
use insomniac.Gc.Sweep.{set_next_mark, sweep_list, sweep_objects, collect}
use insomniac.Gc.Reach.{IsLive, IsKept}
use insomniac.Gc.Marking.{
  Marks, Marks-Recolors, Recolors-before, IsTraversable, IsReached, mark_phase_lem, IsReached-next,
  perm-IsReached,
}
use insomniac.Gc.Sweeping.Objects.{sweep_objects_lem}
use insomniac.Gc.Sweeping.One.{Sweeps}
use insomniac.Gc.Sweeping.WellFormed.{
  IsWellFormed, next_mark-IsColor, next_mark_unused, perm-listed,
}
use insomniac.Gc.Sweeping.Survive.{
  marked_gc, after_marking, survives, swept-IsTraversable, swept-IsWellFormed,
}

-- What a sweep relies on: the lists are well formed, the heap can be searched, the variables that
-- are registered hold live objects, and `fuel` calls of `mark_graph` are deep enough.
pub record IsSweepable (fuel : ℕ) (variables : ℕ → Pointer) (level : ℕ → ℕ) (top : ℕ) (gc : Gc)
    : Type 0 where
  pub well_formed : IsWellFormed gc
  pub traversable : IsTraversable gc.types level top gc.fresh gc.heap
  pub roots : (r : ℕ) → Memᴰ r gc.root_list → IsLive gc.heap (variables r)
  pub enough : suc (gc.fresh * suc top + top) < fuel

-- an object that a registered variable or a permanent object leads to
abbrev pub IsInUse : (ℕ → Pointer) → Gc → ℕ → Type 0
IsInUse variables gc = IsReached gc.types gc.heap variables gc.root_list gc.perm_list

-- The object is as it was but for its mark, and not on the dead list.
abbrev pub IsIntact : Gc → Gc → ℕ → Type 0
IsIntact gc gc' q =
    (meta : Meta) × (mark : Mark) × (gc.heap q ≡ some meta)
    × (mark ≢ dead)
    × (gc'.heap q ≡ some (record meta { mark = mark }))
    × (Memᴰ q gc'.active_list ⊎ Memᴰ q gc'.perm_list)

-- The object is on the dead list, or freed when it has not the size of a cell.
abbrev pub IsCollected : Gc → Gc → ℕ → Type 0
IsCollected gc gc' q =
    (meta : Meta) × (gc.heap q ≡ some meta)
    × (((meta.size ≡ gc.cell_size)
          × (gc'.heap q ≡ some (record meta { mark = dead }))
          × Memᴰ q gc'.dead_list)
        ⊎ ((meta.size ≢ gc.cell_size) × (gc'.heap q ≡ none)))

remarked :
    (meta old : Meta) (mark : Mark)
    → (meta ≡ old) ⊎ ((meta ≡ record old { mark = mark }) × (old.mark ≢ perm) × (old.mark ≢ dead))
    → some meta ≡ some (record old { mark = meta.mark })
remarked meta old mark (inl e) = rw e refl
remarked meta old mark (inr (e, _, _)) = rw e refl

collect_path :
    (fuel : ℕ) (variables : ℕ → Pointer) (gc : Gc) (h : Heap)
    → gc.protect_count ≡ 0
    → (mark_list gc.types (set_next_mark gc).current_mark fuel gc.perm_list gc.heap
        >>= mark_root gc.types (set_next_mark gc).current_mark fuel variables gc.root_list)
      ≡ done h
    → collect fuel variables gc
      ≡ sweep_objects
          (set_next_mark gc).current_mark
          gc.active_list
          (marked_gc gc (set_next_mark gc).current_mark h)
unfolding collect set_next_mark sweep_list ◌>>=◌
collect_path fuel variables gc h open_ marked = ground (arith, open_, marked)

module _ (variables : ℕ → Pointer) (level : ℕ → ℕ) (top fuel : ℕ) (gc : Gc) where
  abbrev pub Collects : Gc → Type 0
  Collects gc' =
      IsWellFormed gc'
      × IsTraversable gc.types level top gc.fresh gc'.heap
      × ((q : ℕ) → IsInUse variables gc q → IsIntact gc gc' q)
      × ((q : ℕ) → Memᴰ q gc.active_list → ¬ IsInUse variables gc q → IsCollected gc gc' q)
      × (gc' ≡ record gc {
        heap = gc'.heap;
        active_list = gc'.active_list;
        dead_list = gc'.dead_list;
        allocations = gc'.allocations;
        current_mark = gc'.current_mark;
      })
      × ((q : ℕ) → Memᴰ q gc.dead_list → Memᴰ q gc'.dead_list)

  module _ (ok : IsSweepable fuel variables level top gc) (h : Heap)
      (marks : Marks gc.types (set_next_mark gc).current_mark (IsInUse variables gc) gc.heap h)
      (kept : (q : ℕ) → IsInUse variables gc q → IsKept (set_next_mark gc).current_mark h (some q))
      (gc' : Gc)
      (sweeps : Sweeps
        (set_next_mark gc).current_mark
        gc.active_list
        (marked_gc gc (set_next_mark gc).current_mark h)
        gc') where
    wf : IsWellFormed gc
    wf = ok.well_formed

    -- an object in use
    intact : (q : ℕ) → IsInUse variables gc q → IsIntact gc gc' q
    intact q used = elim (kept q used) [
      | inl e ↦ absurd (cc e)
      | inr (p, meta, e, now, how) ↦
          let now_q : h q ≡ some meta = cc (e, now) in
          let mark = (set_next_mark gc).current_mark in
          let color = next_mark-IsColor gc in
          let unused = next_mark_unused gc ok.well_formed in
          let (at, where_) =
            survives gc ok.well_formed mark color unused (IsInUse variables gc) h marks gc' sweeps q
              meta now_q how in
          let (old, was, change) =
            Recolors-before gc.types mark (IsInUse variables gc) q meta color
              (Marks-Recolors gc.types mark (IsInUse variables gc) marks) now_q in
          (
            old,
            meta.mark,
            was,
            ground (arith, color, how),
            at ∙ remarked meta old mark change,
            elim where_ [
              | inl i ↦ inl i
              | inr i ↦ inr (subst (Memᴰ q) (sym (ap Gc.perm_list sweeps.framed)) i)
            ],
          )
    ]

    -- an active object that is not in use
    IsCollected-one :
        (q : ℕ) → Memᴰ q gc.active_list → ¬ IsInUse variables gc q → IsCollected gc gc' q
    IsCollected-one q i idle =
        let mark = (set_next_mark gc).current_mark in
        let (old, meta, was, now, change) =
          after_marking gc ok.well_formed mark (next_mark-IsColor gc)
            (next_mark_unused gc ok.well_formed) (IsInUse variables gc) h marks gc' sweeps q i in
        elim change [
          | inr (_, may, _) ↦ absurd (idle may)
          | inl (other, same) ↦
              let was_meta : gc.heap q ≡ some meta = was ∙ ap some (sym same) in
              let size = ap Gc.cell_size sweeps.framed in
              elim (sweeps.fate q meta i now) [
                | inl (m, _, _) ↦ absurd (other m)
                | inr (inl (_, cell, at, j)) ↦ (meta, was_meta, inl (cell ∙ size, at, j))
                | inr (inr (_, large, at)) ↦ (meta, was_meta, inr (λ e. large (e ∙ sym size), at))
              ]
        ]

    collected : Collects gc'
    collected =
        let mark = (set_next_mark gc).current_mark in
        let color = next_mark-IsColor gc in
        let unused = next_mark_unused gc ok.well_formed in
        (
          swept-IsWellFormed gc ok.well_formed mark color unused (IsInUse variables gc) h marks gc'
              sweeps,
          swept-IsTraversable gc ok.well_formed mark color unused (IsInUse variables gc) h marks gc'
              sweeps kept ok.traversable
              (λ p r old i at points.
                IsReached-next gc.types gc.heap variables gc.root_list gc.perm_list p r old at
                  (perm-IsReached gc.types gc.heap variables gc.root_list gc.perm_list p i p refl)
                  points),
          intact,
          IsCollected-one,
          sweeps.framed
              ∙ ap
                  (λ (m : Mark). record gc {
                    heap = gc'.heap;
                    active_list = gc'.active_list;
                    dead_list = gc'.dead_list;
                    allocations = gc'.allocations;
                    current_mark = m;
                  })
                  (sym (ap Gc.current_mark sweeps.framed)),
          λ q i. sweeps.dead_old q i,
        )

  -- One collection without protection, from a well-formed collector whose heap can be searched,
  -- with enough fuel, returns with well-formed lists and a heap that can be searched. Each
  -- object that a registered variable or a permanent object leads to is unchanged but for its
  -- mark, and on the active or the permanent list; each other active object is on the dead list
  -- or, when it has not the size of a cell, freed; dead objects stay dead, and nothing but the
  -- heap, the two lists, the mark and the count of blocks changes.
  pub collect_lem :
      IsSweepable fuel variables level top gc
      → gc.protect_count ≡ 0
      → (gc' : Gc) × (collect fuel variables gc ≡ done gc') × Collects gc'
  collect_lem ok open_ =
      let wf = ok.well_formed in
      let mark = (set_next_mark gc).current_mark in
      let color = next_mark-IsColor gc in
      let unused = next_mark_unused gc wf in
      let (h, marked, marks, kept) =
        mark_phase_lem gc.types gc.heap variables gc.root_list gc.perm_list mark color unused
          (perm-listed gc wf) fuel level top gc.fresh ok.traversable ok.enough ok.roots
          (λ p i.
            let (meta, at, permanent) = wf.permanent p i in
            inr (p, meta, refl, at, cc permanent)) in
      let (gc', swept, sweeps) =
        sweep_objects_lem mark gc.active_list (marked_gc gc mark h) wf.distinct_active (λ q i.
          let (old, was, _) = wf.active q i in
          elim (marks q) [
            | inl same ↦ (old, same ∙ was)
            | inr (old', _, _, _, _, now, _, _) ↦ (record old' { mark = mark }, now)
          ]) in
      (
        gc',
        collect_path fuel variables gc h open_ marked ∙ swept,
        collected ok h marks kept gc' sweeps,
      )
