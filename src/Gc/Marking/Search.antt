-- ===== src/Gc/Marking/Search.antt =====
-- Marking from one pointer returns, and marks what the pointer leads to.
use insomniac.Base.{
  ℕ, zero, suc, ◌+◌, ◌*◌, ◌/◌, ◌<◌, ◌≤◌, ◌≡◌, ◌≢◌, ◌⊎◌, refl, sym, ap, subst, ◌∙◌, inl, inr, true,
  false, none, some, List, [], ◌∷◌, arith, Bool-cases, fun_ext,
}
use native.Mathlib.Nat.{add-mul}
use insomniac.Gc.State.{
  Result, done, ◌>>=◌, Pointer, Mark, perm, dead, same_mark, Meta, Field, ptr, array, TypeDef,
  Types, Heap, store, array_size,
}
use insomniac.Gc.Mark.{
  mark_object, pointer_size, mark_array, mark_fields, mark_typed, mark_meta, mark_graph,
}
use insomniac.Gc.Reach.{Reads, PointsTo, IsTyped, IsLive, IsKept, IsSearchable}
use insomniac.Gc.Marking.Change.{
  IsColor, Marks, Marks-refl, Marks-trans, Marks-IsKept, Marks-Recolors, Recolors, Recolors-IsLive,
  Recolors-IsSearchable, Recolors-store, Marks-store, store_same, different_mark, equal_mark,
}
use insomniac.Gc.Marking.White.{white, Recolors-white, white-store}

pub mul_le : (a b k : ℕ) → a ≤ b → a * k ≤ b * k
mul_le a b k h = grind arith

product_room : (a b k : ℕ) → a + 1 ≡ b → a * suc k + suc k ≡ b * suc k
product_room a b k h = rw (sym h) (omega (arith, add-mul a 1 (suc k)))

slot_zero : (slots : ℕ → Pointer) (base : ℕ) → slots (base + pointer_size * 0) ≡ slots base
slot_zero slots base = ap slots (omega arith)

slot_suc :
    (slots : ℕ → Pointer) (base i : ℕ)
    → slots (base + pointer_size * suc i) ≡ slots (base + pointer_size + pointer_size * i)
slot_suc slots base i = ap slots (omega arith)

module _ (types : Types) (mark : Mark) (color : IsColor mark) (P : ℕ → Type 0) (level : ℕ → ℕ)
    (top fresh : ℕ) where
  -- `n` calls are deep enough for a search from `c`, which may mark its object
  abbrev pub IsWithin : ℕ → Heap → Pointer → Type 0
  IsWithin n h c =
      ((c ≡ none) × (0 < n))
      ⊎ ((p : ℕ) × (c ≡ some p) × P p × (suc (white mark fresh h * suc top + level p) < n))

  Recolors-IsWithin :
      {n : ℕ} {h h' : Heap} {c : Pointer}
      → Recolors types mark P h h'
      → IsWithin n h c
      → IsWithin n h' c
  Recolors-IsWithin m (inl e) = inl e
  Recolors-IsWithin {n} {h} {h'} m (inr (p, e, may, lt)) =
      let le =
        mul_le (white mark fresh h') (white mark fresh h) (suc top)
          (Recolors-white types mark P fresh m) in
      inr (p, e, may, omega arith)

  -- a pointer that may be searched in `n` calls
  abbrev IsReady : ℕ → Heap → Pointer → Type 0
  IsReady n h c = IsLive h c × IsWithin n h c

  Recolors-IsReady :
      {n : ℕ} {h h' : Heap} (c : Pointer)
      → Recolors types mark P h h'
      → IsReady n h c
      → IsReady n h' c
  Recolors-IsReady c m (live, within) =
      (Recolors-IsLive types mark P color m live, Recolors-IsWithin m within)

  -- What a search from `c` has done
  abbrev pub Searched : Heap → Heap → Pointer → Type 0
  Searched h h' c =
      Marks types mark P h h'
      × IsKept mark h' c
      × ((p : ℕ) (meta : Meta) (d : Pointer)
          → c ≡ some p
          → h p ≡ some meta
          → meta.mark ≢ mark
          → PointsTo types meta d
          → IsKept mark h' d)

  abbrev pub Searches : ℕ → (Heap → Pointer → Result Heap) → Type 0
  Searches n go =
      (h : Heap) (c : Pointer)
      → IsSearchable types P level top fresh h
      → IsLive h c
      → IsWithin n h c
      → (h' : Heap) × (go h c ≡ done h') × Searched h h' c

  module _ (n : ℕ) (go : Heap → Pointer → Result Heap) (searches : Searches n go) where
    mark_array_lem :
        (count : ℕ) (slots : ℕ → Pointer) (base : ℕ) (h : Heap)
        → IsSearchable types P level top fresh h
        → ((i : ℕ) → i < count → IsReady n h (slots (base + pointer_size * i)))
        → (h' : Heap) × (mark_array types go count slots base h ≡ done h')
          × Marks types mark P h h'
          × ((i : ℕ) → i < count → IsKept mark h' (slots (base + pointer_size * i)))
    unfolding mark_array ◌>>=◌
    mark_array_lem zero slots base h s ready =
        (h, refl, Marks-refl types mark P h, λ i lt. absurd (omega arith))
    mark_array_lem (suc count) slots base h s ready =
        let e = slot_zero slots base in
        let (live, within) = subst (IsReady n h) e (ready 0 (omega arith)) in
        let (h1, went, (m1, kept, _)) = searches h (slots base) s live within in
        let (h2, rest, m2, others) =
          mark_array_lem count slots (base + pointer_size) h1
            (Recolors-IsSearchable types mark P color (Marks-Recolors types mark P m1) s)
            (λ i lt.
              Recolors-IsReady _ (Marks-Recolors types mark P m1)
                (subst (IsReady n h) (slot_suc slots base i) (ready (suc i) (omega arith)))) in
        (
          h2,
          rw went rest,
          Marks-trans types mark P m1 m2,
          λ i. elim i as (λ k. k < suc count → IsKept mark h2 (slots (base + pointer_size * k))) [
            | zero ↦ λ lt. subst (IsKept mark h2) (sym e) (Marks-IsKept types mark P m2 kept)
            | suc j ↦
                λ lt. subst (IsKept mark h2) (sym (slot_suc slots base j)) (others j (omega arith))
          ],
        )

    mark_fields_lem :
        (fields : List Field) (meta : Meta) (h : Heap)
        → IsSearchable types P level top fresh h
        → ((c : Pointer) → Reads (meta.size / array_size types) meta.slots fields c → IsReady n h c)
        → (h' : Heap) × (mark_fields types go fields meta h ≡ done h')
          × Marks types mark P h h'
          × ((c : Pointer)
              → Reads (meta.size / array_size types) meta.slots fields c
              → IsKept mark h' c)
    unfolding mark_fields ◌>>=◌
    mark_fields_lem [] meta h s ready = (h, refl, Marks-refl types mark P h, λ c r. absurd r)
    mark_fields_lem (ptr offset ∷ fields) meta h s ready =
        let (live, within) = ready (meta.slots offset) (inl refl) in
        let (h1, went, (m1, kept, _)) = searches h (meta.slots offset) s live within in
        let (h2, rest, m2, others) =
          mark_fields_lem fields meta h1
            (Recolors-IsSearchable types mark P color (Marks-Recolors types mark P m1) s)
            (λ c r. Recolors-IsReady c (Marks-Recolors types mark P m1) (ready c (inr r))) in
        (
          h2,
          rw went rest,
          Marks-trans types mark P m1 m2,
          λ c r. elim r [
            | inl e ↦ rw e (Marks-IsKept types mark P m2 kept)
            | inr later ↦ others c later
          ],
        )
    mark_fields_lem (array offset ∷ fields) meta h s ready =
        let (h1, went, m1, kept) =
          mark_array_lem (meta.size / array_size types) meta.slots offset h s
            (λ i lt. ready _ (inl (i, lt, refl))) in
        let (h2, rest, m2, others) =
          mark_fields_lem fields meta h1
            (Recolors-IsSearchable types mark P color (Marks-Recolors types mark P m1) s)
            (λ c r. Recolors-IsReady c (Marks-Recolors types mark P m1) (ready c (inr r))) in
        (
          h2,
          rw went rest,
          Marks-trans types mark P m1 m2,
          λ c r. elim r [
            | inl (i, lt, e) ↦ rw e (Marks-IsKept types mark P m2 (kept i lt))
            | inr later ↦ others c later
          ],
        )

    mark_typed_lem :
        (meta : Meta) (h : Heap)
        → IsSearchable types P level top fresh h
        → IsTyped types meta
        → ((c : Pointer) → PointsTo types meta c → IsReady n h c)
        → (h' : Heap) × (mark_typed types go meta h ≡ done h')
          × Marks types mark P h h'
          × ((c : Pointer) → PointsTo types meta c → IsKept mark h' c)
    unfolding mark_typed
    mark_typed_lem meta h s (inl untyped) ready = (
      h,
      ground (arith, untyped),
      Marks-refl types mark P h,
      λ c (_, _, typed, _, _). absurd (cc (untyped, typed)),
    )
    mark_typed_lem meta h s (inr (type, definition, e, found)) ready =
        let (h', went, m, kept) =
          mark_fields_lem definition.root_list meta h s
            (λ c r. ready c (type, definition, e, found, r)) in
        (
          h',
          ground (arith, e, found, went),
          m,
          λ c (t, d, e', found', r).
              let same : d ≡ definition = cc (e, e', found, found') in
              kept c (
                subst
                  (λ (x : TypeDef). Reads (meta.size / array_size types) meta.slots x.root_list c)
                  same r),
        )

    mark_meta_step :
        (p : ℕ) (meta : Meta) (h : Heap)
        → meta.mark ≢ dead
        → same_mark meta.mark mark ≡ false
        → mark_meta types go mark p meta h
          ≡ mark_typed types go meta (store h p (some (mark_object mark meta)))
    unfolding mark_meta
    mark_meta_step p meta h alive other = ground (arith, other, alive)

    -- a pointer of an object, when the search is at the object
    child-IsReady :
        (p : ℕ) (meta : Meta) (c : Pointer) (h : Heap)
        → IsSearchable types P level top fresh h
        → h p ≡ some meta
        → meta.mark ≢ dead
        → P p
        → PointsTo types meta c
        → ((q : ℕ) → c ≡ some q → suc (white mark fresh h * suc top + level q) < n)
        → 0 < n
        → IsReady n h c
    child-IsReady p meta none h s at alive may reads room positive =
        (inl refl, inl (refl, positive))
    child-IsReady p meta (some q) h s at alive may reads room positive = (
      s.live p meta (some q) at alive reads,
      inr (q, refl, s.closed p q meta at may reads, room q refl),
    )

    mark_perm_lem :
        (p : ℕ) (meta : Meta) (h : Heap)
        → IsSearchable types P level top fresh h
        → h p ≡ some meta
        → meta.mark ≡ perm
        → P p
        → suc (white mark fresh h * suc top + level p) < suc n
        → (h' : Heap) × (mark_typed types go meta (store h p (some (mark_object mark meta)))
            ≡ done h')
          × Searched h h' (some p)
    unfolding mark_object
    mark_perm_lem p meta h s at permanent may within =
        let alive : meta.mark ≢ dead = cc permanent in
        let same : store h p (some (mark_object mark meta)) ≡ h =
          fun_ext (λ q. ground (arith, at, permanent)) in
        let (h', went, m, kept) = mark_typed_lem meta h s (s.typed p meta at alive) (λ c reads.
          child-IsReady p meta c h s at alive may reads
            (λ q e.
              let lower = s.drops p q meta at permanent (subst (PointsTo types meta) e reads) in
              omega arith)
            (omega arith)) in
        (
          h',
          rw same went,
          (
            m,
            Marks-IsKept types mark P m (inr (p, meta, refl, at, inr permanent)),
            λ q old d e was _ reads.
                let same : old ≡ meta = cc (e, was, at) in
                kept d (subst (λ x. PointsTo types x d) same reads),
          ),
        )

    mark_white_lem :
        (p : ℕ) (meta : Meta) (h : Heap)
        → IsSearchable types P level top fresh h
        → h p ≡ some meta
        → meta.mark ≢ dead
        → meta.mark ≢ perm
        → same_mark meta.mark mark ≡ false
        → P p
        → suc (white mark fresh h * suc top + level p) < suc n
        → (h' : Heap) × (mark_typed types go meta (store h p (some (mark_object mark meta)))
            ≡ done h')
          × Searched h h' (some p)
    unfolding mark_object
    mark_white_lem p meta h s at alive changing other may within =
        let marked : Meta = record meta { mark = mark } in
        let h1 : Heap = store h p (some marked) in
        let same : mark_object mark meta ≡ marked = ground (arith, changing) in
        let recolors : Recolors types mark P h h1 =
          Recolors-store types mark P p meta h at alive changing other in
        let at1 : h1 p ≡ some marked = store_same h p (some marked) in
        let alive1 : marked.mark ≢ dead = ground (arith, color) in
        let s1 = Recolors-IsSearchable types mark P color recolors s in
        let fewer = white-store mark fresh p h meta (s.below p meta at) at other in
        let room = product_room (white mark fresh h1) (white mark fresh h) top fewer in
        let (h', went, m, kept) = mark_typed_lem meta h1 s1 (s.typed p meta at alive) (λ c reads.
          child-IsReady p marked c h1 s1 at1 alive1 may reads
            (λ q e. let low = s.levels q in omega arith) (omega arith)) in
        (
          h',
          rw same went,
          (
            Marks-store types mark P p meta h h' at alive changing other m may kept,
            Marks-IsKept types mark P m (inr (p, marked, refl, at1, inl refl)),
            λ q old d e was _ reads.
                let same_meta : old ≡ meta = cc (e, was, at) in
                kept d (subst (λ x. PointsTo types x d) same_meta reads),
          ),
        )

  -- an object that is marked already
  mark_again :
      (n p : ℕ) (meta : Meta) (h : Heap)
      → h p ≡ some meta
      → same_mark meta.mark mark ≡ true
      → (h' : Heap) × (mark_graph types mark (suc n) h (some p) ≡ done h') × Searched h h' (some p)
  unfolding mark_graph mark_meta
  mark_again n p meta h at same =
      let e = equal_mark meta.mark mark same in
      (
        h,
        ground (arith, at, same),
        (
          Marks-refl types mark P h,
          inr (p, meta, refl, at, inl e),
          λ q old d e' was other. absurd (other (cc (e', was, at, e))),
        ),
      )

  pub mark_graph_lem : (n : ℕ) → Searches n (mark_graph types mark n)
  unfolding mark_graph
  mark_graph_lem zero h c s live (inl (_, lt)) = absurd (omega arith)
  mark_graph_lem zero h c s live (inr (p, _, _, lt)) = absurd (omega arith)
  mark_graph_lem (suc n) h none s live within =
      (h, refl, (Marks-refl types mark P h, inl refl, λ p meta d e. absurd (cc e)))
  mark_graph_lem (suc n) h (some p) s (inl e) within = absurd (cc e)
  mark_graph_lem (suc n) h (some p) s live (inl (e, _)) = absurd (cc e)
  mark_graph_lem (suc n) h (some p) s (inr (q, meta, e, at, alive)) (inr (r, e', may, within)) =
      let at_p : h p ≡ some meta = cc (e, at) in
      let within_p : suc (white mark fresh h * suc top + level p) < suc n =
        subst (λ x. suc (white mark fresh h * suc top + level x) < suc n) (cc e') within in
      let may_p : P p = subst P (cc e') may in
      let go = mark_graph types mark n in
      let step : mark_graph types mark (suc n) h (some p) ≡ mark_meta types go mark p meta h =
        ground (arith, at_p) in
      elim (Bool-cases (same_mark meta.mark mark)) [
        | inl same ↦ mark_again n p meta h at_p same
        | inr other ↦
            let path = step ∙ mark_meta_step n go (mark_graph_lem n) p meta h alive other in
            elim (Bool-cases (same_mark meta.mark perm)) [
              | inl permanent ↦
                  let (h', went, done_so) =
                    mark_perm_lem n go (mark_graph_lem n) p meta h s at_p
                      (equal_mark meta.mark perm permanent) may_p within_p in
                  (h', path ∙ went, done_so)
              | inr changing ↦
                  let (h', went, done_so) =
                    mark_white_lem n go (mark_graph_lem n) p meta h s at_p alive
                      (different_mark meta.mark perm changing) other may_p within_p in
                  (h', path ∙ went, done_so)
            ]
      ]
