-- ===== src/Gc/Marking/Roots.antt =====
-- Marking from a list of roots.
use insomniac.Base.{
  ℕ, zero, suc, ◌+◌, ◌*◌, ◌<◌, ◌≤◌, ◌≡◌, refl, sym, subst, inl, inr, Option, none, some, List, [],
  ◌∷◌, arith,
}
use mathlib.Core.List.{Memᴰ}
use mathlib.Core.List.Memᴰ
use insomniac.Gc.State.{done, ◌>>=◌, Pointer, Mark, perm, Meta, Types, Heap}
use insomniac.Gc.Mark.{mark_list, mark_root}
use insomniac.Gc.Reach.{PointsTo, IsLive, IsKept, IsSearchable}
use insomniac.Gc.Marking.Change.{
  IsColor, Marks, Marks-refl, Marks-trans, Marks-IsKept, Marks-Recolors, Recolors-IsLive,
  Recolors-IsSearchable, Recolors-before,
}
use insomniac.Gc.Marking.White.{is_white, white}
use insomniac.Gc.Marking.Search.{mul_le, IsWithin, Searched, mark_graph_lem}

is_white_le : (mark : Mark) (cell : Option Meta) → is_white mark cell ≤ 1
is_white_le mark cell = ground arith

white_le : (mark : Mark) (n : ℕ) (h : Heap) → white mark n h ≤ n
unfolding white
white_le mark zero h = omega arith
white_le mark (suc n) h = omega (arith, white_le mark n h, is_white_le mark (h n))

pub mark_list-root :
    (types : Types) (mark : Mark) (fuel : ℕ) (list : List ℕ) (h : Heap)
    → mark_list types mark fuel list h ≡ mark_root types mark fuel some list h
unfolding mark_list mark_root ◌>>=◌
mark_list-root types mark fuel [] h = refl
mark_list-root types mark fuel (p ∷ list) h = ground (arith, mark_list-root types mark fuel list)

-- what a root holds is live, and may be marked
abbrev pub IsRoot : (ℕ → Type 0) → Heap → Pointer → Type 0
IsRoot P h c = IsLive h c × ((p : ℕ) → c ≡ some p → P p)

-- what a root holds is kept, and what a permanent object there points to
abbrev pub IsSafe : Types → Mark → Heap → Pointer → Type 0
IsSafe types mark h c =
    IsKept mark h c
    × ((p : ℕ) (meta : Meta) (d : Pointer)
        → c ≡ some p
        → h p ≡ some meta
        → meta.mark ≡ perm
        → PointsTo types meta d
        → IsKept mark h d)

module _ (types : Types) (mark : Mark) (color : IsColor mark) (P : ℕ → Type 0) (level : ℕ → ℕ)
    (top fresh : ℕ) where
  pub Marks-IsRoot :
      {h h' : Heap} (c : Pointer) → Marks types mark P h h' → IsRoot P h c → IsRoot P h' c
  Marks-IsRoot c m (live, may) =
      (Recolors-IsLive types mark P color (Marks-Recolors types mark P m) live, may)

  pub Marks-IsSafe :
      {h h' : Heap} (c : Pointer)
      → Marks types mark P h h'
      → IsSafe types mark h c
      → IsSafe types mark h' c
  Marks-IsSafe c m (kept, reads) = (
    Marks-IsKept types mark P m kept,
    λ p meta d e at permanent points.
        let (old, was, change) =
          Recolors-before types mark P p meta color (Marks-Recolors types mark P m) at in
        elim change [
          | inl same ↦ Marks-IsKept types mark P m (
              reads p old d e was (rw (sym same) permanent)
                (subst (λ x. PointsTo types x d) same points))
          | inr (new, _, _) ↦ absurd (ground (arith, color, new, permanent))
        ],
  )

  -- the fuel for each root
  root-IsWithin :
      (n : ℕ) (h : Heap) (c : Pointer)
      → IsSearchable types P level top fresh h
      → suc (fresh * suc top + top) < n
      → ((p : ℕ) → c ≡ some p → P p)
      → IsWithin types mark color P level top fresh n h c
  root-IsWithin n h none s lt may = inl (refl, omega arith)
  root-IsWithin n h (some p) s lt may =
      let le = mul_le (white mark fresh h) fresh (suc top) (white_le mark fresh h) in
      let low = s.levels p in inr (p, refl, may p refl, omega arith)

  Searched-IsSafe :
      (h h' : Heap) (c : Pointer)
      → Searched types mark color P level top fresh h h' c
      → IsSafe types mark h' c
  Searched-IsSafe h h' c (m, kept, reads) = (
    kept,
    λ p meta d e at permanent points.
        let (old, was, change) =
          Recolors-before types mark P p meta color (Marks-Recolors types mark P m) at in
        elim change [
          | inl same ↦
              reads p old d e was (λ marked. ground (arith, color, marked, same, permanent))
                (subst (λ x. PointsTo types x d) same points)
          | inr (new, _, _) ↦ absurd (ground (arith, color, new, permanent))
        ],
  )

  pub mark_root_lem :
      (n : ℕ) (variables : ℕ → Pointer) (list : List ℕ) (h : Heap)
      → IsSearchable types P level top fresh h
      → suc (fresh * suc top + top) < n
      → ((r : ℕ) → Memᴰ r list → IsRoot P h (variables r))
      → (h' : Heap) × (mark_root types mark n variables list h ≡ done h')
        × Marks types mark P h h'
        × ((r : ℕ) → Memᴰ r list → IsSafe types mark h' (variables r))
  unfolding mark_root ◌>>=◌
  mark_root_lem n variables [] h s lt roots =
      (h, refl, Marks-refl types mark P h, λ r i. absurd (Memᴰ.not-nil i))
  mark_root_lem n variables (r ∷ list) h s lt roots =
      let (live, may) = roots r (Memᴰ.head refl) in
      let (h1, went, searched) =
        mark_graph_lem types mark color P level top fresh n h (variables r) s live
          (root-IsWithin n h (variables r) s lt may) in
      let m1 = searched.0 in
      let (h2, rest, m2, others) =
        mark_root_lem n variables list h1
          (Recolors-IsSearchable types mark P color (Marks-Recolors types mark P m1) s) lt
          (λ q i. Marks-IsRoot (variables q) m1 (roots q (Memᴰ.tail i))) in
      (
        h2,
        rw went rest,
        Marks-trans types mark P m1 m2,
        λ q i. elim i [
          | Memᴰ.head e ↦
              subst (λ x. IsSafe types mark h2 (variables x)) (sym e)
                (Marks-IsSafe (variables r) m2 (Searched-IsSafe h h1 (variables r) searched))
          | Memᴰ.tail j ↦ others q j
        ],
      )
