-- ===== src/Gc/Marking/White.antt =====
-- How many objects are yet to be marked.
use insomniac.Base.{
  ℕ, zero, suc, ◌+◌, ◌<◌, ◌≤◌, ◌≡◌, refl, inl, inr, false, Option, none, some, if◌then◌else◌, arith,
  ◌==◌, Bool-cases, ==_iff,
}
use insomniac.Gc.State.{Mark, same_mark, Meta, Types, Heap, store}
use insomniac.Gc.Marking.Change.{Recolors}

abbrev pub is_white : Mark → Option Meta → ℕ
is_white mark none = 0
is_white mark (some meta) = if same_mark meta.mark mark then 0 else 1

unfoldable pub white : Mark → ℕ → Heap → ℕ
white mark zero h = 0
white mark (suc n) h = white mark n h + is_white mark (h n)

module _ (types : Types) (mark : Mark) (P : ℕ → Type 0) where
  is_white-le :
      {h h' : Heap} (q : ℕ)
      → Recolors types mark P h h'
      → is_white mark (h' q) ≤ is_white mark (h q)
  is_white-le {h} {h'} q m = elim (m q) [
    | inl same ↦ rw same (omega arith)
    | inr (meta, was, _, _, _, now) ↦ ground (arith, was, now)
  ]

  pub Recolors-white :
      {h h' : Heap} (n : ℕ) → Recolors types mark P h h' → white mark n h' ≤ white mark n h
  unfolding white
  Recolors-white zero m = omega arith
  Recolors-white (suc n) m = omega (arith, Recolors-white n m, is_white-le n m)

pub white-store_ge :
    (mark : Mark) (n p : ℕ) (h : Heap) (cell : Option Meta)
    → n ≤ p
    → white mark n (store h p cell) ≡ white mark n h
unfolding white
white-store_ge mark zero p h cell le = refl
white-store_ge mark (suc n) p h cell le =
    ground (arith, white-store_ge mark n p h cell (omega arith))

-- marking one object
pub white-store :
    (mark : Mark) (n p : ℕ) (h : Heap) (meta : Meta)
    → p < n
    → h p ≡ some meta
    → same_mark meta.mark mark ≡ false
    → white mark n (store h p (some (record meta { mark = mark }))) + 1 ≡ white mark n h
unfolding white
white-store mark zero p h meta lt at other = absurd (omega arith)
white-store mark (suc n) p h meta lt at other = elim (Bool-cases (n == p)) [
  | inl eq ↦ ground (
    arith,
    eq,
    white-store_ge mark n p h (some (record meta { mark = mark }))
        (omega (arith, (==_iff n p).0 eq)),
  )
  | inr ne ↦ ground (arith, white-store mark n p h meta (ground arith) at other)
]
