-- ===== src/Gc/Marking/Phase.antt =====
-- The marking of a sweep: what is reached from the roots is kept, and nothing else is marked.
use insomniac.Base.{ℕ, suc, ◌+◌, ◌*◌, ◌<◌, ◌≡◌, ◌≢◌, ◌⊎◌, refl, subst, ◌∙◌, inl, inr, some, List}
use mathlib.Core.List.{Memᴰ}
use insomniac.Gc.State.{done, ◌>>=◌, Pointer, Mark, perm, Meta, Types, Heap}
use insomniac.Gc.Mark.{mark_list, mark_root}
use insomniac.Gc.Reach.{PointsTo, IsLive, IsKept, IsSearchable, Reach, here, step}
use insomniac.Gc.Marking.Change.{
  IsColor, Marks, Marks-trans, Marks-Recolors, Recolors-IsLive, Recolors-IsSearchable,
}
use insomniac.Gc.Marking.Roots.{IsSafe, Marks-IsSafe, mark_root_lem, mark_list-root}

-- The heap can be searched, whatever may be marked.
abbrev pub IsTraversable : Types → (ℕ → ℕ) → ℕ → ℕ → Heap → Type 0
IsTraversable types = IsSearchable types (λ _. Unit {0})

module _ (types : Types) (h : Heap) where
  -- one pointer further
  pub Reach-next :
      {c : Pointer} {p q : ℕ} {meta : Meta}
      → Reach types h c p
      → h p ≡ some meta
      → PointsTo types meta (some q)
      → Reach types h c q
  Reach-next here at points = step at points here
  Reach-next (step at' points' more) at points = step at' points' (Reach-next more at points)

  module _ (variables : ℕ → Pointer) (roots perms : List ℕ) where
    -- an object that a root or a permanent object leads to
    abbrev pub IsReached : ℕ → Type 0
    IsReached q =
        ((r : ℕ) × Memᴰ r roots × Reach types h (variables r) q)
        ⊎ ((p : ℕ) × Memᴰ p perms × Reach types h (some p) q)

    pub IsReached-next :
        (p q : ℕ) (meta : Meta)
        → h p ≡ some meta
        → IsReached p
        → PointsTo types meta (some q)
        → IsReached q
    IsReached-next p q meta at (inl (r, i, reach)) points = inl (r, i, Reach-next reach at points)
    IsReached-next p q meta at (inr (r, i, reach)) points = inr (r, i, Reach-next reach at points)

    root-IsReached : (r : ℕ) → Memᴰ r roots → (p : ℕ) → variables r ≡ some p → IsReached p
    root-IsReached r i p e = inl (r, i, rw e here)

    pub perm-IsReached : (r : ℕ) → Memᴰ r perms → (p : ℕ) → some r ≡ some p → IsReached p
    perm-IsReached r i p e = inr (r, i, rw e here)

    module _ (mark : Mark) (color : IsColor mark)
        (unused : (p : ℕ) (meta : Meta) → h p ≡ some meta → meta.mark ≢ mark)
        (listed : (p : ℕ) (meta : Meta) → h p ≡ some meta → meta.mark ≡ perm → Memᴰ p perms) where
      -- what an object that is kept points to is kept, too
      next-IsKept :
          (h' : Heap) (p : ℕ) (meta : Meta) (d : Pointer)
          → Marks types mark IsReached h h'
          → ((r : ℕ) → Memᴰ r perms → IsSafe types mark h' (some r))
          → h p ≡ some meta
          → PointsTo types meta d
          → IsKept mark h' (some p)
          → IsKept mark h' d
      next-IsKept h' p meta d m safe at points (inl e) = absurd (cc e)
      next-IsKept h' p meta d m safe at points (inr (q, meta', e, at', inl marked)) = elim (m p) [
        | inl same ↦ absurd (unused p meta at (cc (same, at, e, at', marked)))
        | inr (old, was, _, _, _, _, _, reads) ↦
            let same : meta ≡ old = cc (at, was) in
            reads d (subst (λ x. PointsTo types x d) same points)
      ]
      next-IsKept h' p meta d m safe at points (inr (q, meta', e, at', inr permanent)) =
          elim (m p) [
            | inl same ↦
                (safe p (listed p meta at (cc (same, at, e, at', permanent)))).1 p meta d refl
                  (same ∙ at) (cc (same, at, e, at', permanent)) points
            | inr (old, was, _, _, _, _, _, reads) ↦
                let same : meta ≡ old = cc (at, was) in
                reads d (subst (λ x. PointsTo types x d) same points)
          ]

      reached-IsKept :
          {c : Pointer} {q : ℕ} (h' : Heap)
          → Marks types mark IsReached h h'
          → ((r : ℕ) → Memᴰ r perms → IsSafe types mark h' (some r))
          → IsKept mark h' c
          → Reach types h c q
          → IsKept mark h' (some q)
      reached-IsKept h' m safe kept here = kept
      reached-IsKept h' m safe kept (step {p} {q} {meta} {c} at points more) =
          reached-IsKept h' m safe (next-IsKept h' p meta c m safe at points kept) more

      pub mark_phase_lem :
          (n : ℕ) (level : ℕ → ℕ) (top fresh : ℕ)
          → IsTraversable types level top fresh h
          → suc (fresh * suc top + top) < n
          → ((r : ℕ) → Memᴰ r roots → IsLive h (variables r))
          → ((p : ℕ) → Memᴰ p perms → IsLive h (some p))
          → (h' : Heap) × ((mark_list types mark n perms h
                >>= mark_root types mark n variables roots)
              ≡ done h')
            × Marks types mark IsReached h h'
            × ((q : ℕ) → IsReached q → IsKept mark h' (some q))
      unfolding ◌>>=◌
      mark_phase_lem n level top fresh s lt live_roots live_perms =
          let s' : IsSearchable types IsReached level top fresh h = record {
            typed = s.typed;
            live = s.live;
            below = s.below;
            levels = s.levels;
            drops = s.drops;
            closed = IsReached-next;
          } in
          let (h1, went, m1, safe) =
            mark_root_lem types mark color IsReached level top fresh n some perms h s' lt
              (λ p i. (live_perms p i, perm-IsReached p i)) in
          let (h2, rest, m2, others) =
            mark_root_lem types mark color IsReached level top fresh n variables roots h1
              (Recolors-IsSearchable types mark IsReached color
                (Marks-Recolors types mark IsReached m1) s')
              lt
              (λ r i. (
                Recolors-IsLive types mark IsReached color (Marks-Recolors types mark IsReached m1)
                    (live_roots r i),
                root-IsReached r i,
              )) in
          let m = Marks-trans types mark IsReached m1 m2 in
          let still = λ (r : ℕ) (i : Memᴰ r perms).
            Marks-IsSafe types mark color IsReached level top fresh (some r) m2 (safe r i) in
          (
            h2,
            rw (mark_list-root types mark n perms h ∙ went) rest,
            m,
            λ q reached. elim reached [
              | inl (r, i, reach) ↦ reached-IsKept h2 m still (others r i).0 reach
              | inr (p, i, reach) ↦ reached-IsKept h2 m still (still p i).0 reach
            ],
          )
