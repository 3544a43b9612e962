-- ===== src/Hash/Chain.antt =====
-- The chains of the buckets: what is found in one after a change.
use insomniac.Base.{
  ℕ, ◌≡◌, ◌≢◌, ◌%◌, refl, arith, ap, ◌∙◌, Bool, true, Option, none, some, List, [], ◌∷◌, ◌++◌,
  if◌then◌else◌, Bool-cases, inl, inr,
}
use insomniac.Hash.Core.{find_in, write_in, remove_in}

-- what `calc_hash` and `compare` have to satisfy
pub record IsKey {K : Type 0} (calc_hash : K → ℕ) (compare : K → K → Bool) : Type 0 where
  pub same : (a : K) → compare a a ≡ true
  pub symmetric : (a b : K) → compare a b ≡ true → compare b a ≡ true
  pub transitive : (a b c : K) → compare a b ≡ true → compare b c ≡ true → compare a c ≡ true
  pub hashed : (a b : K) → compare a b ≡ true → calc_hash a ≡ calc_hash b

module _ {K : Type 0} {calc_hash : K → ℕ} {compare : K → K → Bool}
    (is : IsKey calc_hash compare) where
  compare-left : (a b c : K) → compare a b ≡ true → compare a c ≡ compare b c
  compare-left a b c h =
      ground (arith, is.symmetric a b h, is.transitive b a c, is.transitive a b c)

module _ {K V : Type 0} (calc_hash : K → ℕ) (compare : K → K → Bool)
    (is : IsKey calc_hash compare) where
  -- no key stands twice in the chain
  abbrev pub Distinct : List (K × V) → Type 0
  Distinct [] = Unit
  Distinct ((k, v) ∷ c) = (find_in compare k c ≡ none) × Distinct c

  -- the keys belong to bucket `i` of `size`
  abbrev pub Homed : ℕ → ℕ → List (K × V) → Type 0
  Homed size i [] = Unit
  Homed size i ((k, v) ∷ c) = (calc_hash k % size ≡ i) × Homed size i c

  -- the value of the last entry with the key
  abbrev pub find_last : K → List (K × V) → Option V
  find_last key [] = none
  find_last key ((k, v) ∷ c) = elim (find_last key c) [
    | none ↦ if compare key k then some v else none
    | some w ↦ some w
  ]

  -- equal keys find the same
  pub find_in-compare :
      (a b : K) (c : List (K × V)) → compare a b ≡ true → find_in compare a c ≡ find_in compare b c
  unfolding find_in
  find_in-compare a b [] h = refl
  find_in-compare a b ((k, v) ∷ c) h =
      ground (arith, compare-left is a b k h, find_in-compare a b c h)

  -- a write of a key that is there
  pub find_in-write_in :
      (a b : K) (v : V) (w : V) (c : List (K × V))
      → find_in compare b c ≡ some w
      → find_in compare a (write_in compare b v c)
        ≡ (if compare a b then some v else find_in compare a c)
  unfolding find_in write_in
  find_in-write_in a b v w [] h = absurd (cc h)
  find_in-write_in a b v w ((k, u) ∷ c) h = ground (
    arith,
    find_in-write_in a b v w c,
    is.transitive a b k,
    is.transitive a k b,
    is.symmetric b k,
    is.symmetric a b,
    is.transitive b a k,
  )

  -- a write adds no key
  write_in-none :
      (a b : K) (v : V) (c : List (K × V))
      → find_in compare a c ≡ none
      → find_in compare a (write_in compare b v c) ≡ none
  unfolding find_in write_in
  write_in-none a b v [] h = refl
  write_in-none a b v ((k, u) ∷ c) h = ground (arith, write_in-none a b v c)

  pub write_in-Distinct :
      (b : K) (v : V) (c : List (K × V)) → Distinct c → Distinct (write_in compare b v c)
  unfolding write_in
  write_in-Distinct b v [] h = tt
  write_in-Distinct b v ((k, u) ∷ c) h = elim (Bool-cases (compare b k)) [
    | inl e ↦ rw e h
    | inr e ↦ rw e (write_in-none k b v c h.0, write_in-Distinct b v c h.1)
  ]

  pub write_in-Homed :
      (size i : ℕ) (b : K) (v : V) (c : List (K × V))
      → Homed size i c
      → Homed size i (write_in compare b v c)
  unfolding write_in
  write_in-Homed size i b v [] h = tt
  write_in-Homed size i b v ((k, u) ∷ c) h = elim (Bool-cases (compare b k)) [
    | inl e ↦ rw e h
    | inr e ↦ rw e (h.0, write_in-Homed size i b v c h.1)
  ]

  -- a key is found in its own bucket only
  pub find_in-Homed :
      (size i : ℕ) (a : K) (c : List (K × V))
      → Homed size i c
      → calc_hash a % size ≢ i
      → find_in compare a c ≡ none
  unfolding find_in
  find_in-Homed size i a [] h other = refl
  find_in-Homed size i a ((k, v) ∷ c) h other = elim (Bool-cases (compare a k)) [
    | inl e ↦ absurd (other (ap (λ n. n % size) (is.hashed a k e) ∙ h.0))
    | inr e ↦ rw e (find_in-Homed size i a c h.1 other)
  ]

  pub find_last-Distinct :
      (a : K) (c : List (K × V)) → Distinct c → find_last a c ≡ find_in compare a c
  unfolding find_in
  find_last-Distinct a [] h = refl
  find_last-Distinct a ((k, v) ∷ c) h =
      ground (arith, find_last-Distinct a c h.1, find_in-compare a k c, h.0)

  -- the later part comes first
  abbrev pub or_else : Option V → Option V → Option V
  or_else (some v) o = some v
  or_else none o = o

  pub find_last-append :
      (a : K) (c d : List (K × V)) → find_last a (c ++ d) ≡ or_else (find_last a d) (find_last a c)
  find_last-append a [] d = ground arith
  find_last-append a ((k, v) ∷ c) d = ground (arith, find_last-append a c d)

  remove_in-none :
      (a b : K) (c : List (K × V))
      → find_in compare a c ≡ none
      → find_in compare a (remove_in compare b c) ≡ none
  unfolding find_in remove_in
  remove_in-none a b [] h = refl
  remove_in-none a b ((k, u) ∷ c) h = ground (arith, remove_in-none a b c)

  pub remove_in-Distinct :
      (b : K) (c : List (K × V)) → Distinct c → Distinct (remove_in compare b c)
  unfolding remove_in
  remove_in-Distinct b [] h = tt
  remove_in-Distinct b ((k, u) ∷ c) h = elim (Bool-cases (compare b k)) [
    | inl e ↦ rw e h.1
    | inr e ↦ rw e (remove_in-none k b c h.0, remove_in-Distinct b c h.1)
  ]

  pub remove_in-Homed :
      (size i : ℕ) (b : K) (c : List (K × V))
      → Homed size i c
      → Homed size i (remove_in compare b c)
  unfolding remove_in
  remove_in-Homed size i b [] h = tt
  remove_in-Homed size i b ((k, u) ∷ c) h = elim (Bool-cases (compare b k)) [
    | inl e ↦ rw e h.1
    | inr e ↦ rw e (h.0, remove_in-Homed size i b c h.1)
  ]

  -- a key that is taken out of a chain without repetitions is gone
  pub find_in-remove_in :
      (a b : K) (c : List (K × V))
      → Distinct c
      → find_in compare a (remove_in compare b c)
        ≡ (if compare a b then none else find_in compare a c)
  unfolding find_in remove_in
  find_in-remove_in a b [] h = ground arith
  find_in-remove_in a b ((k, u) ∷ c) h = ground (
    arith,
    find_in-remove_in a b c h.1,
    h.0,
    find_in-compare a b c,
    find_in-compare b k c,
    is.transitive a b k,
    is.transitive a k b,
    is.transitive b a k,
    is.symmetric b k,
    is.symmetric a b,
  )
