-- ===== src/Gc/Roots.antt =====
-- The registered roots, and objects that cease to be permanent.
use insomniac.Base.{
  ℕ, ◌-◌, ◌≡◌, ◌≢◌, ◌⊎◌, refl, sym, subst, ◌∙◌, inl, inr, false, List, [], ◌∷◌, ◌++◌, ◌==◌, ==_refl,
  arith,
}
use mathlib.Core.List.{Memᴰ}
use insomniac.Gc.State.{done, aborted, Gc}
use insomniac.Gc.Core.{find_meta, gc_unregister_root}

pub append-not_nil : (before : List ℕ) (x : ℕ) (after : List ℕ) → before ++ (x ∷ after) ≢ []
append-not_nil [] x after e = cc e
append-not_nil (b ∷ before) x after e = cc e

not-== : {a b : ℕ} → a ≢ b → (a == b) ≡ false
not-== ne = ground (arith, ne)

pub root-cases : (list : List ℕ) → (list ≡ []) ⊎ ((p : ℕ) × (rest : List ℕ) × (list ≡ p ∷ rest))
root-cases [] = inl refl
root-cases (p ∷ rest) = inr (p, rest, refl)

-- the loop stops at an element that stands in the list, after others
pub find_meta-found :
    (sought here : ℕ) (before after list : List ℕ)
    → here ∷ list ≡ before ++ (sought ∷ after)
    → ¬ Memᴰ sought before
    → find_meta sought here list ≡ (sought, before ++ after)
unfolding find_meta
find_meta-found sought here [] after [] e new = cc e
find_meta-found sought here [] after (next ∷ rest) e new = ground (arith, e, ==_refl sought)
find_meta-found sought here (b ∷ before) after [] e new =
    absurd (append-not_nil before sought after (cc e))
find_meta-found sought here (b ∷ before) after (next ∷ rest) e new =
    let first : here ≡ b = cc e in
    let later : next ∷ rest ≡ before ++ (sought ∷ after) = cc e in
    let other : (here == sought) ≡ false = not-== (λ same. new (Memᴰ.head (sym same ∙ first))) in
    let found = find_meta-found sought next before after rest later (λ i. new (Memᴰ.tail i)) in
    ground (arith, other, found, first)

find_meta-missing :
    (sought here : ℕ) (list : List ℕ)
    → ¬ Memᴰ sought (here ∷ list)
    → (find_meta sought here list).0 ≢ sought
unfolding find_meta
find_meta-missing sought here [] new e = new (Memᴰ.head (sym e))
find_meta-missing sought here (next ∷ rest) new e =
    let other : (here == sought) ≡ false = not-== (λ same. new (Memᴰ.head (sym same))) in
    let missing = find_meta-missing sought next rest (λ i. new (Memᴰ.tail i)) in
    ground (arith, other, missing, e)

-- `gc_unregister_root` of a registered root takes out its first entry, keeps the other roots in
-- their order, and counts one block less.
pub gc_unregister_root_lem :
    (root : ℕ) (before after : List ℕ) (gc : Gc)
    → gc.root_list ≡ before ++ (root ∷ after)
    → ¬ Memᴰ root before
    → gc_unregister_root root gc
      ≡ done (record gc { root_list = before ++ after; allocations = gc.allocations - 1 })
unfolding gc_unregister_root
gc_unregister_root_lem root before after gc e new = elim (root-cases gc.root_list) [
  | inl empty ↦ absurd (append-not_nil before root after (sym e ∙ empty))
  | inr (first, rest, list) ↦
      let found = find_meta-found root first before after rest (sym list ∙ e) new in
      ground (arith, list, found, ==_refl root)
]

pub gc_unregister_root-missing :
    (root : ℕ) (gc : Gc)
    → ¬ Memᴰ root gc.root_list
    → gc.root_list ≢ []
    → gc_unregister_root root gc ≡ aborted
unfolding gc_unregister_root
gc_unregister_root-missing root gc new some_root = elim (root-cases gc.root_list) [
  | inl empty ↦ absurd (some_root empty)
  | inr (first, rest, list) ↦
      let missing =
        not-== (find_meta-missing root first rest (subst (λ l. ¬ Memᴰ root l) list new)) in
      ground (arith, list, missing)
]
