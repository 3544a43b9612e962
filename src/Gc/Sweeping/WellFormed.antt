-- ===== src/Gc/Sweeping/WellFormed.antt =====
-- The invariant of the collector's lists.
use insomniac.Base.{
  ℕ, ◌<◌, ◌≡◌, ◌≢◌, ◌⊎◌, sym, ap, ◌∙◌, inl, inr, some, List, [], ◌∷◌, ◌==◌, ==_iff, Bool-cases,
  arith,
}
use mathlib.Core.List.{Memᴰ}
use mathlib.Core.List.Memᴰ
use insomniac.Gc.State.{perm, dead, Meta, Gc}
use insomniac.Gc.Sweep.{set_next_mark}
use insomniac.Gc.Marking.{IsColor}
use insomniac.Gc.Sweeping.One.{IsDistinct}

-- Each object is on the list that its mark tells, and on no list twice.
pub record IsWellFormed (gc : Gc) : Type 0 where
  pub color : IsColor gc.current_mark
  pub active :
      (q : ℕ)
      → Memᴰ q gc.active_list
      → (meta : Meta) × (gc.heap q ≡ some meta) × (meta.mark ≡ gc.current_mark)
  pub dying :
      (q : ℕ)
      → Memᴰ q gc.dead_list
      → (meta : Meta) × (gc.heap q ≡ some meta) × (meta.mark ≡ dead) × (meta.size ≡ gc.cell_size)
  pub permanent :
      (q : ℕ) → Memᴰ q gc.perm_list → (meta : Meta) × (gc.heap q ≡ some meta) × (meta.mark ≡ perm)
  pub listed :
      (q : ℕ) (meta : Meta)
      → gc.heap q ≡ some meta
      → ((meta.mark ≡ gc.current_mark) × Memᴰ q gc.active_list)
        ⊎ (((meta.mark ≡ dead) × Memᴰ q gc.dead_list) ⊎ ((meta.mark ≡ perm) × Memᴰ q gc.perm_list))
  pub distinct_active : IsDistinct gc.active_list
  pub distinct_dead : IsDistinct gc.dead_list
  pub distinct_perm : IsDistinct gc.perm_list
  pub below : (q : ℕ) (meta : Meta) → gc.heap q ≡ some meta → q < gc.fresh

pub Memᴰ-cases : (q : ℕ) (list : List ℕ) → Memᴰ q list ⊎ (¬ Memᴰ q list)
Memᴰ-cases q [] = inr Memᴰ.not-nil
Memᴰ-cases q (p ∷ list) = elim (Bool-cases (q == p)) [
  | inl eq ↦ inl (Memᴰ.head ((==_iff q p).0 eq))
  | inr ne ↦ elim (Memᴰ-cases q list) [
    | inl i ↦ inl (Memᴰ.tail i)
    | inr out ↦ inr (λ i. elim i [ Memᴰ.head e ↦ cc ((==_iff q p).1 e, ne) | Memᴰ.tail j ↦ out j ])
  ]
]

-- the next mark is new to every object
pub next_mark-IsColor : (gc : Gc) → IsColor (set_next_mark gc).current_mark
unfolding set_next_mark
next_mark-IsColor gc = ground arith

pub next_mark_differs :
    (gc : Gc) → IsColor gc.current_mark → (set_next_mark gc).current_mark ≢ gc.current_mark
unfolding set_next_mark
next_mark_differs gc color = ground (arith, color)

module _ (gc : Gc) (wf : IsWellFormed gc) (q : ℕ) (meta : Meta) (at : gc.heap q ≡ some meta) where
  pub next_mark_unused : meta.mark ≢ (set_next_mark gc).current_mark
  next_mark_unused e = elim (wf.listed q meta at) [
    | inl (m, _) ↦ next_mark_differs gc wf.color (sym e ∙ m)
    | inr (inl (m, _)) ↦ absurd (ground (arith, next_mark-IsColor gc, e, m))
    | inr (inr (m, _)) ↦ absurd (ground (arith, next_mark-IsColor gc, e, m))
  ]

  pub perm-listed : meta.mark ≡ perm → Memᴰ q gc.perm_list
  perm-listed p = elim (wf.listed q meta at) [
    | inl (m, _) ↦ absurd (ground (arith, wf.color, p, m))
    | inr (inl (m, _)) ↦ absurd (cc (p, m))
    | inr (inr (_, i)) ↦ i
  ]

  pub inactive-dead : meta.mark ≡ dead → ¬ Memᴰ q gc.active_list
  inactive-dead d i =
      let (other, at', m) = wf.active q i in
      let same : meta ≡ other = cc (at, at') in
      absurd (ground (arith, wf.color, m, d, ap Meta.mark same))

  pub inactive-perm : meta.mark ≡ perm → ¬ Memᴰ q gc.active_list
  inactive-perm d i =
      let (other, at', m) = wf.active q i in
      let same : meta ≡ other = cc (at, at') in
      absurd (ground (arith, wf.color, m, d, ap Meta.mark same))
