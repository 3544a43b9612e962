-- ===== src/Hash/Erase.antt =====
-- `hash_erase` takes a key out of the map.
use mathlib.Core.Option
use insomniac.Base.{
  ℕ, ◌≡◌, ◌+◌, ◌%◌, refl, ap, sym, ◌∙◌, Bool, none, some, List, Bool-cases, Option-cases, inl, inr,
  get_elem?-lt, set, length-set,
}
use insomniac.Hash.Core.{find_in, remove_in, hash_erase}
use insomniac.Hash.Chain.{
  IsKey, find_in-compare, find_in-remove_in, remove_in-Distinct, remove_in-Homed,
}
use insomniac.Hash.Placed.{Placed-get_elem?, Placed-set}
use insomniac.Hash.Find.{table_of, IsTable, lookup, changed, index, inside, lookup-set}

module _ {K V : Type 0} (calc_hash : K → ℕ) (compare : K → K → Bool)
    (is : IsKey calc_hash compare) where
  module _ (size entries : ℕ) (cs : List (List (K × V))) (w : IsTable calc_hash compare is size cs)
      (key : K) where
    -- a key that is not there
    absent :
        lookup calc_hash compare is size cs key ≡ none
        → (a : K)
        → lookup calc_hash compare is size cs a
          ≡ changed calc_hash compare is key none (lookup calc_hash compare is size cs) a
    unfolding Option.bind
    absent missing a = elim (Bool-cases (compare a key)) [
      | inl e ↦
          let home : calc_hash a % size ≡ calc_hash key % size =
            ap (λ n. n % size) (is.hashed a key e) in
          let (c, there) =
            get_elem?-lt cs (calc_hash key % size) (inside calc_hash compare is size cs w key) in
          rw (e, home, there)
            (find_in-compare calc_hash compare is a key c e ∙ sym (rw there refl) ∙ missing)
      | inr e ↦ rw e refl
    ]

    -- For a hash and a comparison that agree, and a table without a mark in which each key
    -- stands once, in the bucket of its hash: `hash_erase` returns a table of the same kind in
    -- which the keys that compare equal have no value and all others the value of before, and
    -- leaves the number of entries as it was.
    pub hash_erase_lem :
        (ds : List (List (K × V))) × (hash_erase (table_of calc_hash compare is cs size entries) key
          ≡ some (table_of calc_hash compare is ds size entries))
        × IsTable calc_hash compare is size ds
        × ((a : K)
            → lookup calc_hash compare is size ds a
              ≡ changed calc_hash compare is key none (lookup calc_hash compare is size cs) a)
    unfolding hash_erase Option.bind
    hash_erase_lem =
        let i = index calc_hash compare is size cs w key in
        let (c, there) = get_elem?-lt cs i (inside calc_hash compare is size cs w key) in
        let (distinct, homed) =
          Placed-get_elem? calc_hash compare is size 0 i cs c w.placed there in
        elim (Option-cases (find_in compare key c)) [
          | inl missing ↦ (cs, rw (there, missing) refl, w, absent (rw there missing))
          | inr (u, found) ↦ (
            set cs i (remove_in compare key c),
            rw (there, found) refl,
            record {
              sized = length-set cs i (remove_in compare key c) ∙ w.sized;
              positive = w.positive;
              placed =
                  Placed-set calc_hash compare is size 0 i cs (remove_in compare key c) w.placed
                    (remove_in-Distinct calc_hash compare is key c distinct)
                    (remove_in-Homed calc_hash compare is size (0 + i) key c homed);
            },
            lookup-set calc_hash compare is size cs w key none c (remove_in compare key c) there
                (λ a. find_in-remove_in calc_hash compare is a key c distinct),
          )
        ]
