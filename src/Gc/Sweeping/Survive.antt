-- ===== src/Gc/Sweeping/Survive.antt =====
-- Which objects a sweep leaves, and that the lists are well formed after it.
use insomniac.Base.{ℕ, ◌≡◌, ◌≢◌, ◌⊎◌, refl, sym, ap, subst, ◌∙◌, inl, inr, none, some, [], arith}
use mathlib.Core.List.{Memᴰ}
use mathlib.Core.List.Memᴰ
use insomniac.Gc.State.{Pointer, Mark, perm, dead, Meta, Heap, Gc}
use insomniac.Gc.Reach.{PointsTo, IsLive, IsKept}
use insomniac.Gc.Marking.{
  IsColor, Marks, Marks-Recolors, Recolors-before, Recolors-IsSearchable, IsTraversable,
}
use insomniac.Gc.Sweeping.One.{IsDistinct, Sweeps}
use insomniac.Gc.Sweeping.WellFormed.{IsWellFormed, Memᴰ-cases, inactive-dead, inactive-perm}

-- the collector when `sweep_list` begins its loop
abbrev pub marked_gc : Gc → Mark → Heap → Gc
marked_gc gc mark h = record gc { heap = h; active_list = []; current_mark = mark }

module _ (gc : Gc) (wf : IsWellFormed gc) (mark : Mark) (color : IsColor mark)
    (unused : (q : ℕ) (meta : Meta) → gc.heap q ≡ some meta → meta.mark ≢ mark) (P : ℕ → Type 0)
    (h : Heap) (marks : Marks gc.types mark P gc.heap h) (gc' : Gc)
    (sweeps : Sweeps mark gc.active_list (marked_gc gc mark h) gc') where
  -- An object that is not on the active list is as it was.
  pub untouched :
      (q : ℕ) (meta : Meta)
      → gc.heap q ≡ some meta
      → (meta.mark ≡ dead) ⊎ (meta.mark ≡ perm)
      → (h q ≡ some meta) × (gc'.heap q ≡ some meta)
  untouched q meta at fixed =
      let still : h q ≡ some meta = elim (marks q) [
        | inl same ↦ same ∙ at
        | inr (old, was, _, b, c, _, _, _) ↦
            let e : meta ≡ old = cc (at, was) in
            absurd (ground (arith, fixed, b, c, ap Meta.mark e))
      ] in
      let out : ¬ Memᴰ q gc.active_list = elim fixed [
        | inl d ↦ inactive-dead gc wf q meta at d
        | inr p ↦ inactive-perm gc wf q meta at p
      ] in
      (still, sweeps.outside q out ∙ still)

  -- an active object after marking: as it was, or marked with everything it points to kept
  pub after_marking :
      (q : ℕ)
      → Memᴰ q gc.active_list
      → (old meta : Meta) × (gc.heap q ≡ some old)
        × (h q ≡ some meta)
        × (((meta.mark ≢ mark) × (meta ≡ old))
            ⊎ ((meta ≡ record old { mark = mark })
                × P q
                × ((c : Pointer) → PointsTo gc.types old c → IsKept mark h c)))
  after_marking q i =
      let (old, was, _) = wf.active q i in
      elim (marks q) [
        | inl same ↦ (old, old, was, same ∙ was, inl (unused q old was, refl))
        | inr (old', was', _, _, _, now, may, reads) ↦
            (old', record old' { mark = mark }, was', now, inr (refl, may, reads))
      ]

  -- An object that is kept survives, and is on the active list or permanent.
  pub survives :
      (q : ℕ) (meta : Meta)
      → h q ≡ some meta
      → (meta.mark ≡ mark) ⊎ (meta.mark ≡ perm)
      → (gc'.heap q ≡ some meta) × (Memᴰ q gc'.active_list ⊎ Memᴰ q gc.perm_list)
  survives q meta now kept =
      let (old, was, change) =
        Recolors-before gc.types mark P q meta color (Marks-Recolors gc.types mark P marks) now in
      elim (wf.listed q old was) [
        | inl (m, i) ↦ elim (sweeps.fate q meta i now) [
          | inl (_, at, i') ↦ (at, inl i')
          | inr (inl (other, _, _, _)) ↦
              absurd (ground (arith, kept, other, change, m, wf.color, color))
          | inr (inr (other, _, _)) ↦
              absurd (ground (arith, kept, other, change, m, wf.color, color))
        ]
        | inr (inl (d, i)) ↦ absurd (ground (arith, kept, change, d, color))
        | inr (inr (p, i)) ↦
            let (still, at) = untouched q old was (inr p) in (at ∙ sym still ∙ now, inr i)
      ]

  -- what is there after the sweep was there before, and was marked unless it is dead
  origin :
      (q : ℕ) (meta : Meta)
      → gc'.heap q ≡ some meta
      → ((meta.mark ≡ mark) × Memᴰ q gc'.active_list × (h q ≡ some meta))
        ⊎ (((meta.mark ≡ dead) × Memᴰ q gc'.dead_list)
            ⊎ ((meta.mark ≡ perm) × Memᴰ q gc.perm_list × (h q ≡ some meta)))
  origin q meta at = elim (Memᴰ-cases q gc.active_list) [
    | inl i ↦
        let (old, mid, was, now, _) = after_marking q i in
        elim (sweeps.fate q mid i now) [
          | inl (m, at', i') ↦
              let e : mid ≡ meta = cc (at, at') in
              inl (subst (λ x. x.mark ≡ mark) e m, i', now ∙ ap some e)
          | inr (inl (_, _, at', i')) ↦
              let e : record mid { mark = dead } ≡ meta = cc (at, at') in
              inr (inl (sym (ap Meta.mark e), i'))
          | inr (inr (_, _, at')) ↦ absurd (cc (at, at'))
        ]
    | inr out ↦
        let now : h q ≡ some meta = sym (sweeps.outside q out) ∙ at in
        let (old, was, change) =
          Recolors-before gc.types mark P q meta color (Marks-Recolors gc.types mark P marks) now in
        elim (wf.listed q old was) [
          | inl (_, i) ↦ absurd (out i)
          | inr (inl (d, i)) ↦
              let (still, _) = untouched q old was (inl d) in
              let e : old ≡ meta = cc (still, now) in
              inr (inl (subst (λ x. x.mark ≡ dead) e d, sweeps.dead_old q i))
          | inr (inr (p, i)) ↦
              let (still, _) = untouched q old was (inr p) in
              let e : old ≡ meta = cc (still, now) in
              inr (inr (subst (λ x. x.mark ≡ perm) e p, i, now))
        ]
  ]

  existed : (q : ℕ) (meta : Meta) → gc'.heap q ≡ some meta → (old : Meta) × (gc.heap q ≡ some old)
  existed q meta at = elim (Memᴰ-cases q gc.active_list) [
    | inl i ↦ let (old, was, _) = wf.active q i in (old, was)
    | inr out ↦
        let (old, was, _) =
          Recolors-before gc.types mark P q meta color (Marks-Recolors gc.types mark P marks)
            (sym (sweeps.outside q out) ∙ at) in
        (old, was)
  ]

  alive-marked : (q : ℕ) (meta : Meta) → gc'.heap q ≡ some meta → meta.mark ≢ dead → h q ≡ some meta
  alive-marked q meta at alive = elim (origin q meta at) [
    | inl (_, _, now) ↦ now
    | inr (inl (d, _)) ↦ absurd (alive d)
    | inr (inr (_, _, now)) ↦ now
  ]

  module _ (all_kept : (q : ℕ) → P q → IsKept mark h (some q)) where
    -- a pointer that is kept is live after the sweep
    kept-IsLive : {c : Pointer} → IsKept mark h c → IsLive gc'.heap c
    kept-IsLive (inl e) = inl e
    kept-IsLive (inr (q, meta, e, now, kept)) =
        let (at, _) = survives q meta now kept in inr (q, meta, e, at, ground (arith, kept, color))

    -- what is not dead points to what is kept
    points-IsKept :
        (q : ℕ) (meta : Meta) (c : Pointer)
        → gc'.heap q ≡ some meta
        → meta.mark ≢ dead
        → ((p r : ℕ) (old : Meta)
            → Memᴰ p gc.perm_list
            → gc.heap p ≡ some old
            → PointsTo gc.types old (some r)
            → P r)
        → PointsTo gc.types meta c
        → IsKept mark h c
    points-IsKept q meta none at alive from points = inl refl
    points-IsKept q meta (some r) at alive from points = elim (origin q meta at) [
      | inl (m, i, now) ↦ elim (marks q) [
        | inl same ↦ absurd (unused q meta (sym same ∙ now) m)
        | inr (old, was, _, _, _, now', _, reads) ↦
            let e : meta ≡ record old { mark = mark } = cc (now, now') in
            reads (some r) (subst (λ x. PointsTo gc.types x (some r)) e points)
      ]
      | inr (inl (d, _)) ↦ absurd (alive d)
      | inr (inr (p, i, now)) ↦
          let (old, was, p') = wf.permanent q i in
          let (still, _) = untouched q old was (inr p') in
          let e : meta ≡ old = cc (now, still) in
          all_kept r (from q r old i was (subst (λ x. PointsTo gc.types x (some r)) e points))
    ]

    pub swept-IsTraversable :
        {level : ℕ → ℕ} {top : ℕ}
        → IsTraversable gc.types level top gc.fresh gc.heap
        → ((p r : ℕ) (old : Meta)
            → Memᴰ p gc.perm_list
            → gc.heap p ≡ some old
            → PointsTo gc.types old (some r)
            → P r)
        → IsTraversable gc.types level top gc.fresh gc'.heap
    swept-IsTraversable s from =
        let searched =
          Recolors-IsSearchable gc.types mark (λ _. Unit) color
            (Marks-Recolors gc.types mark P marks) s in
        record {
          typed = λ p meta at alive. searched.typed p meta (alive-marked p meta at alive) alive;
          live =
              λ p meta c at alive points. kept-IsLive (points-IsKept p meta c at alive from points);
          below = λ p meta at. let (old, was) = existed p meta at in s.below p old was;
          levels = s.levels;
          drops = λ p q meta at permanent points.
              searched.drops p q meta (alive-marked p meta at (cc permanent)) permanent points;
          closed = λ p q meta at may points. tt;
        }

  pub swept-IsWellFormed : IsWellFormed gc'
  swept-IsWellFormed =
      let framed = sweeps.framed in
      let current : gc'.current_mark ≡ mark = ap Gc.current_mark framed in
      record {
        color = rw current color;
        active = λ q i. elim (sweeps.active_from q i) [
          | inl none_there ↦ absurd (Memᴰ.not-nil none_there)
          | inr (_, (meta, now, m)) ↦ (meta, (survives q meta now (inl m)).0, m ∙ sym current)
        ];
        dying = λ q i. elim (sweeps.dead_from q i) [
          | inl before ↦
              let (meta, was, d, size) = wf.dying q before in
              (meta, (untouched q meta was (inl d)).1, d, size ∙ sym (ap Gc.cell_size framed))
          | inr (active, (meta, now, other, size)) ↦ elim (sweeps.fate q meta active now) [
            | inl (m, _, _) ↦ absurd (other m)
            | inr (inl (_, size', at, _)) ↦ (record meta { mark = dead }, at, refl, size')
            | inr (inr (_, size', _)) ↦ absurd (size' (size ∙ sym (ap Gc.cell_size framed)))
          ]
        ];
        permanent = λ q i.
            let (meta, was, p) = wf.permanent q (subst (Memᴰ q) (ap Gc.perm_list framed) i) in
            (meta, (untouched q meta was (inr p)).1, p);
        listed = λ q meta at. elim (origin q meta at) [
          | inl (m, i, _) ↦ inl (m ∙ sym current, i)
          | inr (inl (d, i)) ↦ inr (inl (d, i))
          | inr (inr (p, i, _)) ↦ inr (inr (p, subst (Memᴰ q) (sym (ap Gc.perm_list framed)) i))
        ];
        distinct_active = sweeps.distinct_active tt (λ q i. Memᴰ.not-nil);
        distinct_dead =
            sweeps.distinct_dead wf.distinct_dead
              (λ q i j. let (meta, was, d, _) = wf.dying q j in inactive-dead gc wf q meta was d i);
        distinct_perm = subst IsDistinct (sym (ap Gc.perm_list framed)) wf.distinct_perm;
        below = λ q meta at.
            let (old, was) = existed q meta at in rw (ap Gc.fresh framed) (wf.below q old was);
      }
