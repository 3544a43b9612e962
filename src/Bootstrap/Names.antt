-- ===== src/Bootstrap/Names.antt =====
-- The names of labels.
use insomniac.Base.{
  ℕ, zero, suc, ◌+◌, ◌-◌, ◌*◌, ◌/◌, ◌%◌, ◌<◌, ◌≤◌, ◌≡◌, refl, ◌∙◌, inl, inr, Bool-cases, [], ◌∷◌,
  ◌++◌, ltb, arith,
}
use insomniac.Bootstrap.Stream.{Text}
use insomniac.Bootstrap.Output.{digits, decimal, label_name}

-- the number that digits stand for, after `before`
abbrev pub value : ℕ → Text → ℕ
value before [] = before
value before (c ∷ text) = value (before * 10 + (c - 48)) text

value-append :
    (before : ℕ) (first second : Text)
    → value before (first ++ second) ≡ value (value before first) second
value-append before [] second = refl
value-append before (c ∷ first) second = value-append (before * 10 + (c - 48)) first second

value-digits : (fuel n : ℕ) → n < fuel → value 0 (digits fuel n) ≡ n
unfolding digits
value-digits zero n h = absurd (omega arith)
value-digits (suc fuel) n h = elim (Bool-cases (ltb n 10)) [
  | inl small ↦ ground (arith, small)
  | inr large ↦
      let ge : 10 ≤ n = ground (arith, large) in
      let rest = value-digits fuel (n / 10) (omega arith) in
      let split = value-append 0 (digits fuel (n / 10)) ((48 + n % 10) ∷ []) in
      let last : value (value 0 (digits fuel (n / 10))) ((48 + n % 10) ∷ []) ≡ n =
        rw rest (omega arith) in
      simp large (split ∙ last)
]

-- the number at the end of a name
unfoldable pub index_of : Text → ℕ
index_of (_ ∷ (_ ∷ (_ ∷ (_ ∷ (_ ∷ (_ ∷ (_ ∷ text))))))) = value 0 text
index_of _ = 0

-- The number behind the prefix of a label's name is the number that the label was made from.
pub index_of-label_name : (index : ℕ) → index_of (label_name index) ≡ index
unfolding index_of label_name decimal
index_of-label_name index = value-digits (suc index) index (omega arith)
