-- ===== src/Gc/Sweeping/Alloc.antt =====
-- `gc_alloc`, with the sweep that it may start.
use insomniac.Base.{
  ℕ, suc, ◌+◌, ◌<◌, ◌≤◌, ◌≡◌, ◌≢◌, refl, sym, ap, subst, ◌∙◌, inl, inr, Bool, true, false,
  Bool-cases, none, some, List, ◌∷◌, ◌==◌, arith,
}
use mathlib.Core.List.{Memᴰ}
use insomniac.Gc.State.{Result, done, Pointer, dead, Meta, store, Gc}
use insomniac.Gc.Sweep.{gc_alloc, sweep}
use insomniac.Gc.Marking.{store_same, store_else}
use insomniac.Gc.Sweeping.WellFormed.{IsWellFormed}
use insomniac.Gc.Sweeping.Collect.{IsInUse, IsIntact}
use insomniac.Gc.Sweeping.Place.{store_old, place_active, place_perm, remove_dead}
use insomniac.Gc.Sweeping.Follow.{Follows, IsInUse-later}
use insomniac.Gc.Sweeping.Cells.{IsSound, Extends-IsLive, Extends-refl, Extends-Follows, fresh-free}
use insomniac.Gc.Sweeping.Whole.{HasRoom, Follows-IsSound, List-cases, sweep-protected, sweep_lem}
use insomniac.Gc.Sweeping.Placed.{
  zero-cases, new_meta, place, place_new, without, place_dead, alloc_large, Prepares, alloc_none,
  alloc_reused,
}

module _ (variables : ℕ → Pointer) (level : ℕ → ℕ) (top : ℕ) (permanent : Bool) (size : ℕ) where
  -- A new object: nothing that was in use was given out or changed.
  abbrev pub IsAllocated : Gc → ℕ → Gc → Type 0
  IsAllocated gc p gc' =
      IsWellFormed gc'
      × (¬ IsInUse variables gc p)
      × (gc'.heap p ≡ some (new_meta permanent size gc'))
      × ((q : ℕ) → IsInUse variables gc q → IsIntact gc gc' q)

  -- what is in use is live
  in_use-IsLive :
      (gc : Gc) (q : ℕ)
      → IsSound variables level top gc
      → IsInUse variables gc q
      → (meta : Meta) × (gc.heap q ≡ some meta) × (meta.mark ≢ dead)
  in_use-IsLive gc q ok used =
      elim (Extends-IsLive variables level top gc gc q ok (Extends-refl variables level top gc)
        used) [ inl e ↦ absurd (cc e) | inr (r, meta, e, at, alive) ↦ (meta, cc (e, at), alive) ]

  -- an object in use, when another one is placed
  placed-IsIntact :
      (gc b : Gc) (p fresh count q : ℕ) (meta : Meta)
      → b.active_list ≡ gc.active_list
      → b.perm_list ≡ gc.perm_list
      → IsWellFormed gc
      → ((old : Meta)
          → gc.heap q ≡ some old
          → old.mark ≢ dead
          → store b.heap p (some meta) q ≡ some old)
      → (old : Meta) → gc.heap q ≡ some old
      → old.mark ≢ dead
      → IsIntact gc (place permanent p fresh count meta b) q
  placed-IsIntact gc b p fresh count q meta actives perms wf stays old at alive = (
    old,
    old.mark,
    at,
    alive,
    elim permanent as (λ flag. (place flag p fresh count meta b).heap q ≡ some old) [
      | true ↦ stays old at alive
      | false ↦ stays old at alive
    ],
    elim (wf.listed q old at) [
      | inl (_, i) ↦
          inl (elim permanent as (λ flag. Memᴰ q (place flag p fresh count meta b).active_list) [
            | true ↦ subst (Memᴰ q) (sym actives) i
            | false ↦ Memᴰ.tail (subst (Memᴰ q) (sym actives) i)
          ])
      | inr (inl (d, _)) ↦ absurd (alive d)
      | inr (inr (_, i)) ↦
          inr (elim permanent as (λ flag. Memᴰ q (place flag p fresh count meta b).perm_list) [
            | true ↦ Memᴰ.tail (subst (Memᴰ q) (sym perms) i)
            | false ↦ subst (Memᴰ q) (sym perms) i
          ])
    ],
  )

  place-IsWellFormed :
      (b : Gc) (p fresh count : ℕ)
      → b.heap p ≡ none
      → p < fresh
      → b.fresh ≤ fresh
      → IsWellFormed b
      → IsWellFormed (place permanent p fresh count (new_meta permanent size b) b)
  place-IsWellFormed b p fresh count free low grown wf =
      elim permanent as (λ flag. IsWellFormed (place flag p fresh count (new_meta flag size b) b)) [
        | true ↦ place_perm b p fresh (new_meta true size b) free low grown count wf refl
        | false ↦ place_active b p fresh (new_meta false size b) free low grown count wf refl
      ]

  place-here :
      (b : Gc) (p fresh count : ℕ)
      → (place permanent p fresh count (new_meta permanent size b) b).heap p
        ≡ some
            (new_meta permanent size (place permanent p fresh count (new_meta permanent size b) b))
  place-here b p fresh count =
      elim permanent
        as (λ flag.
          (place flag p fresh count (new_meta flag size b) b).heap p
          ≡ some (new_meta flag size (place flag p fresh count (new_meta flag size b) b))) [
            | true ↦ store_same b.heap p _
            | false ↦ store_same b.heap p _
          ]

  new-IsAllocated :
      (gc : Gc)
      → IsSound variables level top gc
      → IsAllocated gc gc.fresh (place_new permanent size gc)
  new-IsAllocated gc ok =
      let free = fresh-free variables level top gc ok.0 in
      (
        place-IsWellFormed gc gc.fresh (suc gc.fresh) (gc.allocations + 1) free (omega arith)
            (omega arith) ok.0,
        λ used. let (meta, at, _) = in_use-IsLive gc gc.fresh ok used in cc (free, at),
        place-here gc gc.fresh (suc gc.fresh) (gc.allocations + 1),
        λ q used.
            let (meta, at, alive) = in_use-IsLive gc q ok used in
            placed-IsIntact gc gc gc.fresh (suc gc.fresh) (gc.allocations + 1) q
              (new_meta permanent size gc) refl refl ok.0
              (λ old was _. store_old gc.heap gc.fresh (new_meta permanent size gc) free q old was)
              meta at alive,
      )

  dead-IsAllocated :
      (gc : Gc) (p : ℕ) (rest : List ℕ)
      → IsSound variables level top gc
      → gc.dead_list ≡ p ∷ rest
      → IsAllocated gc p (place_dead permanent size p rest gc)
  dead-IsAllocated gc p rest ok e =
      let b = without p rest gc in
      let free : b.heap p ≡ none = store_same gc.heap p none in
      let (dying, at_p, dead_p, _) = ok.0.dying p (subst (Memᴰ p) (sym e) (Memᴰ.head refl)) in
      let low = ok.0.below p dying at_p in
      (
        place-IsWellFormed b p gc.fresh gc.allocations free low (omega arith)
            (remove_dead gc p rest ok.0 e),
        λ used.
            let (meta, at, alive) = in_use-IsLive gc p ok used in
            let same : meta ≡ dying = cc (at, at_p) in alive (ap Meta.mark same ∙ dead_p),
        place-here b p gc.fresh gc.allocations,
        λ q used.
            let (meta, at, alive) = in_use-IsLive gc q ok used in
            placed-IsIntact gc b p gc.fresh gc.allocations q (new_meta permanent size gc) refl refl
              ok.0
              (λ old was living.
                let ne : q ≢ p = λ same.
                  let equal : old ≡ dying = cc (was, at_p, ap gc.heap same) in
                  living (ap Meta.mark equal ∙ dead_p) in
                store_else b.heap p q (some (new_meta permanent size gc)) ne
                ∙ store_else gc.heap p q none ne
                ∙ was)
              meta at alive,
      )

  -- an allocation after a sweep
  IsAllocated-later :
      (gc g gc' : Gc) (p : ℕ)
      → Follows variables level top gc g
      → IsAllocated g p gc'
      → IsAllocated gc p gc'
  IsAllocated-later gc g gc' p f (wf, idle, new, intact) = (
    wf,
    λ used. idle (IsInUse-later variables level top gc g p f used),
    new,
    λ q used.
        let (meta, mark, was, alive, now, _) = f.intact q used in
        let (meta', mark', was', alive', now', where_) =
          intact q (IsInUse-later variables level top gc g q f used) in
        let e : record meta { mark = mark } ≡ meta' = cc (now, was') in
        (
          meta,
          mark',
          was,
          alive',
          now' ∙ sym (ap (λ (m : Meta). some (record m { mark = mark' })) e),
          where_,
        ),
  )

  -- the cell comes from the dead list of a collector that is ready, or is new
  ready_lem :
      (go : Gc → Result Gc) (gc ready : Gc)
      → (size == gc.cell_size) ≡ true
      → Prepares go size gc ready
      → IsSound variables level top ready
      → Follows variables level top gc ready
      → (p : ℕ) × (gc' : Gc) × (gc_alloc go permanent size gc ≡ done (p, gc'))
        × IsAllocated gc p gc'
  ready_lem go gc ready cell prepared ok f = elim (List-cases ready.dead_list) [
    | inl empty ↦ (
      ready.fresh,
      place_new permanent size ready,
      alloc_none go size gc permanent ready cell prepared empty,
      IsAllocated-later gc ready (place_new permanent size ready) ready.fresh f
          (new-IsAllocated ready ok),
    )
    | inr (p, rest, filled) ↦ (
      p,
      place_dead permanent size p rest ready,
      alloc_reused go size gc permanent ready p rest cell prepared filled,
      IsAllocated-later gc ready (place_dead permanent size p rest ready) p f
          (dead-IsAllocated ready p rest ok filled),
    )
  ]

  -- From a collector whose lists are well formed, whose heap can be searched and whose
  -- registered variables hold live objects, with fuel for the heap and two calls of `sweep`
  -- inside one another, `gc_alloc` returns, whether or not it has to sweep first: the lists are
  -- well formed, the object is empty and without a type, it is no object that was in use, and
  -- each object that was in use is still there, unchanged but for its mark.
  pub gc_alloc_lem :
      (fuel depth : ℕ) (gc : Gc)
      → IsSound variables level top gc
      → HasRoom variables level top fuel gc.fresh
      → (p : ℕ) × (gc' : Gc) × (gc_alloc (sweep (suc (suc depth)) fuel variables) permanent size gc
          ≡ done (p, gc'))
        × IsAllocated gc p gc'
  gc_alloc_lem fuel depth gc ok room =
      let go = sweep (suc (suc depth)) fuel variables in
      let same =
        Extends-Follows variables level top gc gc ok (Extends-refl variables level top gc) ok.0
          ok.1 in
      elim (Bool-cases (size == gc.cell_size)) [
        | inr large ↦ (
          gc.fresh,
          place_new permanent size gc,
          alloc_large go size gc permanent large,
          new-IsAllocated gc ok,
        )
        | inl cell ↦ elim (List-cases gc.dead_list) [
          | inr (p, rest, filled) ↦ ready_lem go gc gc cell (ground (arith, filled)) ok same
          | inl empty ↦ elim (zero-cases gc.protect_count) [
            | inr (n, protected) ↦
                let still = sweep-protected fuel (suc depth) variables gc n protected in
                ready_lem go gc gc cell (ground (arith, empty, still)) ok same
            | inl open_ ↦
                let (g, swept, (f, _, _)) =
                  sweep_lem variables level top fuel depth gc ok room open_ in
                ready_lem go gc g cell (ground (arith, empty, swept))
                  (Follows-IsSound variables level top fuel gc g ok f) f
          ]
        ]
      ]
