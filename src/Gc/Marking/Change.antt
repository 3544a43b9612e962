-- ===== src/Gc/Marking/Change.antt =====
-- How the heap before marking and the heap after it are related.
use insomniac.Base.{
  ℕ, ◌≡◌, ◌≢◌, ◌⊎◌, refl, sym, ap, ◌∙◌, inl, inr, true, false, Option, some, arith, ◌==◌, subst,
  Bool-cases, ==_iff,
}
use insomniac.Gc.State.{Pointer, Mark, red, black, perm, dead, same_mark, Meta, Types, Heap, store}
use insomniac.Gc.Reach.{PointsTo, IsLive, IsKept, IsSearchable}

-- The marks that a sweep gives
abbrev pub IsColor : Mark → Type 0
IsColor mark = (mark ≡ red) ⊎ (mark ≡ black)

pub store_same : (h : Heap) (p : ℕ) (cell : Option Meta) → store h p cell p ≡ cell
store_same h p cell = ground arith

pub store_other :
    (h : Heap) (p q : ℕ) (cell : Option Meta) → (q == p) ≡ false → store h p cell q ≡ h q
store_other h p q cell ne = ground (arith, ne)

pub store_else : (h : Heap) (p q : ℕ) (cell : Option Meta) → q ≢ p → store h p cell q ≡ h q
store_else h p q cell ne = ground (arith, ne)

pub equal_mark : (a b : Mark) → same_mark a b ≡ true → a ≡ b
equal_mark a b h = ground (arith, h)

pub different_mark : (a b : Mark) → same_mark a b ≡ false → a ≢ b
different_mark a b h = ground (arith, h)

module _ (types : Types) (mark : Mark) (P : ℕ → Type 0) where
  -- The object was not marked yet, and is marked now. `P` holds for what a search may mark.
  abbrev pub IsRecolored : Heap → Heap → ℕ → Type 0
  IsRecolored h h' q =
      (meta : Meta) × (h q ≡ some meta)
      × (meta.mark ≢ mark)
      × (meta.mark ≢ perm)
      × (meta.mark ≢ dead)
      × (h' q ≡ some (record meta { mark = mark }))

  abbrev pub Recolors : Heap → Heap → Type 0
  Recolors h h' = (q : ℕ) → (h' q ≡ h q) ⊎ IsRecolored h h' q

  -- what the object points to is kept, too
  abbrev pub IsMarked : Heap → Heap → ℕ → Type 0
  IsMarked h h' q =
      (meta : Meta) × (h q ≡ some meta)
      × (meta.mark ≢ mark)
      × (meta.mark ≢ perm)
      × (meta.mark ≢ dead)
      × (h' q ≡ some (record meta { mark = mark }))
      × P q
      × ((c : Pointer) → PointsTo types meta c → IsKept mark h' c)

  abbrev pub Marks : Heap → Heap → Type 0
  Marks h h' = (q : ℕ) → (h' q ≡ h q) ⊎ IsMarked h h' q

  pub Marks-Recolors : {h h' : Heap} → Marks h h' → Recolors h h'
  Marks-Recolors m q = elim (m q) [
    | inl same ↦ inl same
    | inr (meta, was, a, b, c, now, _, _) ↦ inr (meta, was, a, b, c, now)
  ]

  pub Marks-refl : (h : Heap) → Marks h h
  Marks-refl h q = inl refl

  pub Marks-IsKept : {h h' : Heap} {c : Pointer} → Marks h h' → IsKept mark h c → IsKept mark h' c
  Marks-IsKept m (inl e) = inl e
  Marks-IsKept m (inr (p, meta, e, at, kept)) = elim (m p) [
    | inl same ↦ inr (p, meta, e, same ∙ at, kept)
    | inr (old, was, _, _, _, now, _, _) ↦ inr (p, record old { mark = mark }, e, now, inl refl)
  ]

  pub Marks-trans : {h h' h'' : Heap} → Marks h h' → Marks h' h'' → Marks h h''
  Marks-trans m n q = elim (n q) [
    | inl same ↦ elim (m q) [
      | inl before ↦ inl (same ∙ before)
      | inr (meta, was, a, b, c, now, may, reads) ↦
          inr (meta, was, a, b, c, same ∙ now, may, λ d r. Marks-IsKept n (reads d r))
    ]
    | inr (meta, was, a, b, c, now, may, reads) ↦ elim (m q) [
      | inl before ↦ inr (meta, sym before ∙ was, a, b, c, now, may, reads)
      | inr (old, _, _, _, _, then_, _, _) ↦ absurd (a (cc (was, then_)))
    ]
  ]

  pub Recolors-IsLive :
      {h h' : Heap} {c : Pointer} → IsColor mark → Recolors h h' → IsLive h c → IsLive h' c
  Recolors-IsLive color m (inl e) = inl e
  Recolors-IsLive color m (inr (p, meta, e, at, live)) = elim (m p) [
    | inl same ↦ inr (p, meta, e, same ∙ at, live)
    | inr (old, was, _, _, _, now) ↦
        inr (p, record old { mark = mark }, e, now, ground (arith, color))
  ]

  -- an object of the later heap, in the earlier one
  pub Recolors-before :
      {h h' : Heap} (p : ℕ) (meta : Meta)
      → IsColor mark
      → Recolors h h'
      → h' p ≡ some meta
      → (old : Meta) × (h p ≡ some old)
        × ((meta ≡ old)
            ⊎ ((meta ≡ record old { mark = mark }) × (old.mark ≢ perm) × (old.mark ≢ dead)))
  Recolors-before p meta color m at = elim (m p) [
    | inl same ↦ (meta, sym same ∙ at, inl refl)
    | inr (old, was, _, b, c, now) ↦ (old, was, inr (cc (at, now), b, c))
  ]

  pub Recolors-IsSearchable :
      {level : ℕ → ℕ} {top fresh : ℕ} {h h' : Heap}
      → IsColor mark
      → Recolors h h'
      → IsSearchable types P level top fresh h
      → IsSearchable types P level top fresh h'
  Recolors-IsSearchable {h = h} {h' = h'} color m s = record {
    typed = λ p meta at live.
        let (old, was, change) = Recolors-before p meta color m at in
        elim change [
          | inl e ↦ rw e (s.typed p old was (rw (sym e) live))
          | inr (e, _, alive) ↦ rw e (s.typed p old was alive)
        ];
    live = λ p meta c at live reads.
        let (old, was, change) = Recolors-before p meta color m at in
        Recolors-IsLive color m elim change [
          | inl e ↦ s.live p old c was (rw (sym e) live) (rw (sym e) reads)
          | inr (e, _, alive) ↦ s.live p old c was alive (subst (λ x. PointsTo types x c) e reads)
        ];
    below = λ p meta at.
        let (old, was, change) = Recolors-before p meta color m at in s.below p old was;
    levels = s.levels;
    closed = λ p q meta at may reads.
        let (old, was, change) = Recolors-before p meta color m at in
        elim change [
          | inl e ↦ s.closed p q old was may (subst (λ x. PointsTo types x (some q)) e reads)
          | inr (e, _, _) ↦
              s.closed p q old was may (subst (λ x. PointsTo types x (some q)) e reads)
        ];
    drops = λ p q meta at permanent reads.
        let (old, was, change) = Recolors-before p meta color m at in
        elim change [
          | inl e ↦ s.drops p q old was (rw (sym e) permanent) (rw (sym e) reads)
          | inr (e, _, _) ↦ absurd (ground (arith, color, e, permanent))
        ];
  }

  -- one object is marked
  pub Recolors-store :
      (p : ℕ) (meta : Meta) (h : Heap)
      → h p ≡ some meta
      → meta.mark ≢ dead
      → meta.mark ≢ perm
      → same_mark meta.mark mark ≡ false
      → Recolors h (store h p (some (record meta { mark = mark })))
  Recolors-store p meta h at alive changing other q = elim (Bool-cases (q == p)) [
    | inl eq ↦
        let e = (==_iff q p).0 eq in
        inr (
          meta,
          ap h e ∙ at,
          different_mark meta.mark mark other,
          changing,
          alive,
          ground (arith, eq),
        )
    | inr ne ↦ inl (ground (arith, ne))
  ]

  -- One object is marked, then more, and what the first one points to is kept.
  pub Marks-store :
      (p : ℕ) (meta : Meta) (h h' : Heap)
      → h p ≡ some meta
      → meta.mark ≢ dead
      → meta.mark ≢ perm
      → same_mark meta.mark mark ≡ false
      → Marks (store h p (some (record meta { mark = mark }))) h'
      → P p
      → ((c : Pointer) → PointsTo types meta c → IsKept mark h' c)
      → Marks h h'
  Marks-store p meta h h' at alive changing other m may kept q = elim (Bool-cases (q == p)) [
    | inl eq ↦
        let e = (==_iff q p).0 eq in
        let marked : Meta = record meta { mark = mark } in
        let at1 : store h p (some marked) q ≡ some marked = ground (arith, eq) in
        elim (m q) [
          | inl same ↦ inr (
            meta,
            ap h e ∙ at,
            different_mark meta.mark mark other,
            changing,
            alive,
            same ∙ at1,
            subst P (sym e) may,
            kept,
          )
          | inr (old, was, unmarked, _, _, _, _, _) ↦ absurd (unmarked (cc (was, at1)))
        ]
    | inr ne ↦
        let at1 = store_other h p q (some (record meta { mark = mark })) ne in
        elim (m q) [
          | inl same ↦ inl (same ∙ at1)
          | inr (old, was, a, b, c, now, may, reads) ↦
              inr (old, sym at1 ∙ was, a, b, c, now, may, reads)
        ]
  ]

-- The number of objects below `n` that a search can still mark
