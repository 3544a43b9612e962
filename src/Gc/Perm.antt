-- ===== src/Gc/Perm.antt =====
-- Objects that cease to be permanent.
use insomniac.Base.{
  ℕ, ◌≡◌, ◌≢◌, ◌⊎◌, refl, sym, ap, subst, ◌∙◌, inl, inr, none, some, List, [], ◌∷◌, ◌++◌, arith,
}
use mathlib.Core.List.{Memᴰ}
use mathlib.Core.List.Memᴰ
use insomniac.Gc.State.{done, perm, Meta, Heap, store, Gc}
use insomniac.Gc.Core.{move_perm, gc_de_perm}
use insomniac.Gc.Sweeping.{
  IsDistinct, IsWellFormed, perm-listed, inactive-perm, store_twice, store-none, place_active,
}
use insomniac.Gc.Marking.{store_same, store_else}
use insomniac.Gc.Roots.{find_meta-found, root-cases, append-not_nil}

-- an element of a list, after others
split :
    (p : ℕ) (list : List ℕ)
    → IsDistinct list
    → Memᴰ p list
    → (before after : List ℕ) × (list ≡ before ++ (p ∷ after)) × (¬ Memᴰ p (before ++ after))
split p [] d i = absurd (Memᴰ.not-nil i)
split p (q ∷ list) (new, d) (Memᴰ.head e) =
    ([], list, ap (λ x. x ∷ list) (sym e), subst (λ x. ¬ Memᴰ x list) (sym e) new)
split p (q ∷ list) (new, d) (Memᴰ.tail i) =
    let (before, after, e, out) = split p list d i in
    (
      q ∷ before,
      after,
      ap (λ l. q ∷ l) e,
      λ j. elim j [ Memᴰ.head same ↦ new (subst (λ x. Memᴰ x list) same i) | Memᴰ.tail k ↦ out k ],
    )

Memᴰ-append :
    (p q : ℕ) (before after : List ℕ) → Memᴰ q (before ++ after) → Memᴰ q (before ++ (p ∷ after))
Memᴰ-append p q [] after i = Memᴰ.tail i
Memᴰ-append p q (b ∷ before) after (Memᴰ.head e) = Memᴰ.head e
Memᴰ-append p q (b ∷ before) after (Memᴰ.tail i) = Memᴰ.tail (Memᴰ-append p q before after i)

Memᴰ-append_left : (q : ℕ) (before after : List ℕ) → Memᴰ q before → Memᴰ q (before ++ after)
Memᴰ-append_left q (b ∷ before) after (Memᴰ.head e) = Memᴰ.head e
Memᴰ-append_left q (b ∷ before) after (Memᴰ.tail i) = Memᴰ.tail (Memᴰ-append_left q before after i)
Memᴰ-append_left q [] after i = absurd (Memᴰ.not-nil i)

Memᴰ-split :
    (p q : ℕ) (before after : List ℕ)
    → Memᴰ q (before ++ (p ∷ after))
    → (q ≡ p) ⊎ Memᴰ q (before ++ after)
Memᴰ-split p q [] after (Memᴰ.head e) = inl e
Memᴰ-split p q [] after (Memᴰ.tail i) = inr i
Memᴰ-split p q (b ∷ before) after (Memᴰ.head e) = inr (Memᴰ.head e)
Memᴰ-split p q (b ∷ before) after (Memᴰ.tail i) = elim (Memᴰ-split p q before after i) [
  | inl e ↦ inl e
  | inr j ↦ inr (Memᴰ.tail j)
]

IsDistinct-split :
    (p : ℕ) (before after : List ℕ)
    → IsDistinct (before ++ (p ∷ after))
    → IsDistinct (before ++ after)
IsDistinct-split p [] after (_, d) = d
IsDistinct-split p (b ∷ before) after (new, d) =
    (λ i. new (Memᴰ-append p b before after i), IsDistinct-split p before after d)

module _ (gc : Gc) (p : ℕ) (meta : Meta) (wf : IsWellFormed gc) (at : gc.heap p ≡ some meta)
    (permanent : meta.mark ≡ perm) (before after : List ℕ)
    (list : gc.perm_list ≡ before ++ (p ∷ after)) (out : ¬ Memᴰ p (before ++ after)) where
  remove_perm :
      IsWellFormed (record gc { heap = store gc.heap p none; perm_list = before ++ after })
  remove_perm =
      let kept : (q : ℕ) (old : Meta)
          → q ≢ p
          → gc.heap q ≡ some old
          → store gc.heap p none q ≡ some old =
        λ q old ne was. store_else gc.heap p q none ne ∙ was in
      record {
        color = wf.color;
        active = λ q i.
            let (old, was, m) = wf.active q i in
            (
              old,
              kept q old
                  (λ same.
                    inactive-perm gc wf p meta at permanent
                      (subst (λ x. Memᴰ x gc.active_list) same i))
                  was,
              m,
            );
        dying = λ q i.
            let (old, was, m, size) = wf.dying q i in
            (old, kept q old (λ same. cc (ap gc.heap same, was, at, m, permanent)) was, m, size);
        permanent = λ q i.
            let (old, was, m) =
              wf.permanent q (subst (Memᴰ q) (sym list) (Memᴰ-append p q before after i)) in
            (old, kept q old (λ same. out (subst (λ x. Memᴰ x (before ++ after)) same i)) was, m);
        listed = λ q old now.
            let (ne, was) = store-none gc.heap p q old now in
            elim (wf.listed q old was) [
              | inl i ↦ inl i
              | inr (inl i) ↦ inr (inl i)
              | inr (inr (m, i)) ↦ elim (Memᴰ-split p q before after (subst (Memᴰ q) list i)) [
                | inl same ↦ absurd (ne same)
                | inr j ↦ inr (inr (m, j))
              ]
            ];
        distinct_active = wf.distinct_active;
        distinct_dead = wf.distinct_dead;
        distinct_perm = IsDistinct-split p before after (subst IsDistinct list wf.distinct_perm);
        below = λ q old now. let (_, was) = store-none gc.heap p q old now in wf.below q old was;
      }

  -- the collector after the object has moved
  abbrev moved : Gc
  moved = record gc {
    heap = store gc.heap p (some (record meta { mark = gc.current_mark }));
    active_list = p ∷ gc.active_list;
    perm_list = before ++ after;
  }

  moved-IsWellFormed : IsWellFormed moved
  moved-IsWellFormed =
      subst
        (λ (h : Heap).
          IsWellFormed
            (record gc { heap = h; active_list = p ∷ gc.active_list; perm_list = before ++ after }))
        (store_twice gc.heap p none (some (record meta { mark = gc.current_mark })))
        (place_active (record gc { heap = store gc.heap p none; perm_list = before ++ after }) p
          gc.fresh (record meta { mark = gc.current_mark }) (store_same gc.heap p none)
          (wf.below p meta at) (omega arith) gc.allocations remove_perm refl)

  de_perm_path : gc_de_perm p gc ≡ done moved
  unfolding gc_de_perm move_perm
  de_perm_path = elim (root-cases gc.perm_list) [
    | inl empty ↦ absurd (append-not_nil before p after (sym list ∙ empty))
    | inr (first, rest, shape) ↦
        let found =
          find_meta-found p first before after rest (sym shape ∙ list)
            (λ i. out (Memᴰ-append_left p before after i)) in
        ground (arith, at, permanent, shape, found)
  ]

-- From a collector with well-formed lists, `gc_de_perm` of a permanent object returns with
-- well-formed lists: the object has the current mark, is at the head of the active list and is
-- no longer on the permanent one.
pub gc_de_perm_lem :
    (gc : Gc) (p : ℕ) (meta : Meta)
    → IsWellFormed gc
    → gc.heap p ≡ some meta
    → meta.mark ≡ perm
    → (gc' : Gc) × (gc_de_perm p gc ≡ done gc')
      × IsWellFormed gc'
      × (gc'.heap p ≡ some (record meta { mark = gc.current_mark }))
      × (gc'.active_list ≡ p ∷ gc.active_list)
      × (¬ Memᴰ p gc'.perm_list)
gc_de_perm_lem gc p meta wf at permanent =
    let (before, after, list, out) =
      split p gc.perm_list wf.distinct_perm (perm-listed gc wf p meta at permanent) in
    (
      moved gc p meta wf at permanent before after list out,
      de_perm_path gc p meta wf at permanent before after list out,
      moved-IsWellFormed gc p meta wf at permanent before after list out,
      store_same gc.heap p _,
      refl,
      out,
    )
