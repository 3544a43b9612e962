-- ===== src/Hash/Placed.antt =====
-- Buckets: each key stands once, in the bucket of its hash.
use insomniac.Base.{
  ℕ, zero, suc, ◌≡◌, ◌≢◌, ◌<◌, ◌+◌, ◌%◌, refl, arith, ap, subst, ◌∙◌, Bool, Option, none, some,
  List, [], ◌∷◌, get_elem?, set, replicate,
}
use mathlib.Core.Option
use insomniac.Hash.Core.{find_in, flatten}
use insomniac.Hash.Chain.{
  IsKey, Distinct, Homed, find_last, find_in-Homed, find_last-Distinct, find_last-append, or_else,
}

pub get_elem?-set_other :
    {A : Type 0} (xs : List A) (i j : ℕ) (v : A) → i ≢ j → get_elem? (set xs i v) j ≡ get_elem? xs j
get_elem?-set_other [] i j v h = refl
get_elem?-set_other (x ∷ xs) zero zero v h = absurd (h refl)
get_elem?-set_other (x ∷ xs) zero (suc j) v h = refl
get_elem?-set_other (x ∷ xs) (suc i) zero v h = refl
get_elem?-set_other (x ∷ xs) (suc i) (suc j) v h = get_elem?-set_other xs i j v (λ e. h (ap suc e))

module _ {K V : Type 0} (calc_hash : K → ℕ) (compare : K → K → Bool) (is : IsKey calc_hash compare)
    (size : ℕ) where
  -- the buckets from number `i` on
  abbrev pub Placed : ℕ → List (List (K × V)) → Type 0
  Placed i [] = Unit
  Placed i (c ∷ cs) =
      Distinct calc_hash compare is c × Homed calc_hash compare is size i c × Placed (suc i) cs

  pub Placed-get_elem? :
      (i n : ℕ) (cs : List (List (K × V))) (c : List (K × V))
      → Placed i cs
      → get_elem? cs n ≡ some c
      → Distinct calc_hash compare is c × Homed calc_hash compare is size (i + n) c
  Placed-get_elem? i n [] c p h = absurd (cc h)
  Placed-get_elem? i zero (d ∷ cs) c p h =
      let same : d ≡ c = cc h in
      let here : i ≡ i + 0 = omega arith in
      subst (λ x. Distinct calc_hash compare is x × Homed calc_hash compare is size (i + 0) x) same
        (p.0, subst (λ j. Homed calc_hash compare is size j d) here p.1)
  Placed-get_elem? i (suc n) (d ∷ cs) c p h =
      let there : suc i + n ≡ i + suc n = omega arith in
      subst (λ j. Distinct calc_hash compare is c × Homed calc_hash compare is size j c) there
        (Placed-get_elem? (suc i) n cs c p.2 h)

  pub Placed-set :
      (i n : ℕ) (cs : List (List (K × V))) (c : List (K × V))
      → Placed i cs
      → Distinct calc_hash compare is c
      → Homed calc_hash compare is size (i + n) c
      → Placed i (set cs n c)
  Placed-set i n [] c p d h = tt
  Placed-set i zero (x ∷ cs) c p d h =
      let here : i + 0 ≡ i = omega arith in
      (d, subst (λ j. Homed calc_hash compare is size j c) here h, p.2)
  Placed-set i (suc n) (x ∷ cs) c p d h =
      let there : i + suc n ≡ suc i + n = omega arith in
      (
        p.0,
        p.1,
        Placed-set (suc i) n cs c p.2 d (subst (λ j. Homed calc_hash compare is size j c) there h),
      )

  -- a key of an earlier bucket
  find_last-before :
      (i : ℕ) (a : K) (cs : List (List (K × V)))
      → Placed i cs
      → calc_hash a % size < i
      → find_last calc_hash compare is a (flatten cs) ≡ none
  find_last-before i a [] p h = refl
  find_last-before i a (c ∷ cs) p h = ground (
    arith,
    find_last-append calc_hash compare is a c (flatten cs),
    find_last-before (suc i) a cs p.2 (omega arith),
    find_last-Distinct calc_hash compare is a c p.0,
    find_in-Homed calc_hash compare is size i a c p.1 (λ e. omega arith),
  )

  -- Among all entries, a key has the value that it has in its bucket.
  pub find_last-flatten :
      (i n : ℕ) (a : K) (cs : List (List (K × V)))
      → Placed i cs
      → calc_hash a % size ≡ i + n
      → find_last calc_hash compare is a (flatten cs)
        ≡ Option.bind (get_elem? cs n) (find_in compare a)
  unfolding Option.bind
  find_last-flatten i n a [] p h = refl
  find_last-flatten i zero a (c ∷ cs) p h = ground (
    arith,
    find_last-append calc_hash compare is a c (flatten cs),
    find_last-before (suc i) a cs p.2 (omega arith),
    find_last-Distinct calc_hash compare is a c p.0,
  )
  find_last-flatten i (suc n) a (c ∷ cs) p h =
      find_last-append calc_hash compare is a c (flatten cs)
      ∙ rw
          (
            find_last-Distinct calc_hash compare is a c p.0,
            find_in-Homed calc_hash compare is size i a c p.1 (λ e. omega arith),
            find_last-flatten (suc i) n a cs p.2 (omega arith),
          )
          (or_none _)
    where
      or_none : (o : Option V) → or_else calc_hash compare is o none ≡ o
      or_none none = refl
      or_none (some v) = refl

pub Placed-replicate :
    {K : Type 0} (V : Type 0) (calc_hash : K → ℕ) (compare : K → K → Bool)
    (is : IsKey calc_hash compare) (size i n : ℕ)
    → Placed {V = V} calc_hash compare is size i (replicate n [])
unfolding replicate
Placed-replicate V calc_hash compare is size i zero = tt
Placed-replicate V calc_hash compare is size i (suc n) =
    (tt, tt, Placed-replicate V calc_hash compare is size (suc i) n)
