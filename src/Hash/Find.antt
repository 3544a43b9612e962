-- ===== src/Hash/Find.antt =====
-- hash_core.c: a table that shares nothing is a map from keys to values.
use insomniac.Base.{
  ℕ, suc, ◌≡◌, ◌≢◌, ◌<◌, ◌+◌, ◌%◌, refl, arith, ap, sym, ◌∙◌, Bool, false, Option, some, List, ◌∷◌,
  if◌then◌else◌, Bool-cases, inl, inr, get_elem?, get_elem?-lt, get_elem?-set_self, length-set, set,
  length, ◌==◌, Option-cases,
}
use mathlib.Core.Option
use insomniac.Hash.Core.{Hash, Action, find_in, write_in, hash_find, hash_get}
use insomniac.Hash.Chain.{IsKey, find_in-write_in, write_in-Distinct, write_in-Homed}
use insomniac.Hash.Placed.{Placed, Placed-get_elem?, Placed-set, get_elem?-set_other}

module _ {K V : Type 0} (calc_hash : K → ℕ) (compare : K → K → Bool)
    (is : IsKey calc_hash compare) where
  -- a table that shares nothing
  abbrev pub table_of : List (List (K × V)) → ℕ → ℕ → Hash K V
  table_of cs size entries = record {
    calc_hash = calc_hash;
    compare = compare;
    table = cs;
    size = size;
    entries = entries;
    copy_on_write = false;
  }

  -- each key stands once, in the bucket of its hash
  pub record IsTable (size : ℕ) (cs : List (List (K × V))) : Type 0 where
    pub sized : length cs ≡ size
    pub positive : 0 < size
    pub placed : Placed calc_hash compare is size 0 cs

  -- the value of a key
  abbrev pub lookup : ℕ → List (List (K × V)) → K → Option V
  lookup size cs a = Option.bind (get_elem? cs (calc_hash a % size)) (find_in compare a)

  -- the map changed at a key
  abbrev pub changed : K → Option V → (K → Option V) → K → Option V
  changed key o f a = if compare a key then o else f a

  abbrev pub updated : K → V → (K → Option V) → K → Option V
  updated key v = changed key (some v)

  module _ (size : ℕ) (cs : List (List (K × V))) (w : IsTable size cs) (key : K) where
    abbrev pub index : ℕ
    index = calc_hash key % size

    pub inside : index < length cs
    inside = omega (arith, w.sized, w.positive)

    pub hash_get_lem :
        (entries : ℕ) → hash_get (table_of cs size entries) key ≡ some (lookup size cs key)
    unfolding hash_get Option.bind
    hash_get_lem entries = let (c, e) = get_elem?-lt cs index inside in rw e refl

    module _ (o : Option V) (c d : List (K × V)) (there : get_elem? cs index ≡ some c)
        (agrees : (a : K)
          → find_in compare a d ≡ (if compare a key then o else find_in compare a c)) where
      -- a change of the bucket of a key is seen as a change of the map
      pub lookup-set : (a : K) → lookup size (set cs index d) a ≡ changed key o (lookup size cs) a
      unfolding Option.bind
      lookup-set a = elim (Bool-cases (calc_hash a % size == index)) [
        | inl e ↦
            let same : calc_hash a % size ≡ index = ground arith in
            rw (same, get_elem?-set_self cs index d inside, there) (agrees a)
        | inr e ↦
            let other : index ≢ calc_hash a % size = λ h. ground arith in
            let different : compare a key ≡ false = elim (Bool-cases (compare a key)) [
              | inl f ↦ absurd (other (sym (ap (λ n. n % size) (is.hashed a key f))))
              | inr f ↦ f
            ] in
            rw (get_elem?-set_other cs index (calc_hash a % size) d other, different) refl
      ]

    -- the outcome of a creation
    abbrev pub Created : V → Option (Hash K V × Option V) → Type 0
    Created v r =
        (ds : List (List (K × V))) × (entries : ℕ) × (r ≡ some (table_of ds size entries, some v))
        × IsTable size ds
        × ((a : K) → lookup size ds a ≡ updated key v (lookup size cs) a)

    pub create_lem :
        (m entries : ℕ) (v : V)
        → Created v (hash_find (suc m) (table_of cs size entries) key (Action.create v))
    unfolding hash_find Option.bind find_in
    create_lem m entries v =
        let (c, there) = get_elem?-lt cs index inside in
        let (distinct, homed) =
          Placed-get_elem? calc_hash compare is size 0 index cs c w.placed there in
        let zero_plus : 0 + index ≡ index = omega arith in
        elim (Option-cases (find_in compare key c)) [
          | inl missing ↦ (
            set cs index ((key, v) ∷ c),
            entries + 1,
            rw (there, missing) refl,
            record {
              sized = length-set cs index ((key, v) ∷ c) ∙ w.sized;
              positive = w.positive;
              placed =
                  Placed-set calc_hash compare is size 0 index cs ((key, v) ∷ c) w.placed
                    (missing, distinct) (sym zero_plus, homed);
            },
            lookup-set (some v) c ((key, v) ∷ c) there (λ a. refl),
          )
          | inr (u, found) ↦ (
            set cs index (write_in compare key v c),
            entries,
            rw (there, found) refl,
            record {
              sized = length-set cs index (write_in compare key v c) ∙ w.sized;
              positive = w.positive;
              placed =
                  Placed-set calc_hash compare is size 0 index cs (write_in compare key v c)
                    w.placed (write_in-Distinct calc_hash compare is key v c distinct)
                    (write_in-Homed calc_hash compare is size (0 + index) key v c homed);
            },
            lookup-set (some v) c (write_in compare key v c) there
                (λ a. find_in-write_in calc_hash compare is a key v u c found),
          )
        ]
