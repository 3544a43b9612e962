-- ===== src/Hash/Share.antt =====
-- The first write to a table that `hash_cow` made.
use mathlib.Core.Option
use insomniac.Base.{
  ℕ, zero, suc, ◌≡◌, ◌<◌, ◌%◌, refl, arith, ap, ◌∙◌, if◌then◌else◌, Bool, true, some, List, [], ◌∷◌,
  length-replicate, replicate,
}
use insomniac.Hash.Core.{
  Hash, flatten, copy_entries, hash_find, hash_set, hash_cow, create_in, unshared, resize_with,
}
use insomniac.Hash.Chain.{IsKey}
use insomniac.Hash.Placed.{Placed-replicate, find_last-flatten}
use insomniac.Hash.Find.{table_of, IsTable, lookup, updated, create_lem}
use insomniac.Hash.Set.{
  Sized, Stands, over, over-cons, over-none, lookup-empty, create_at, copy_entries_lem,
  hash_set_lem,
}

module _ {K V : Type 0} (calc_hash : K → ℕ) (compare : K → K → Bool)
    (is : IsKey calc_hash compare) where
  -- a table that is marked for a copy
  abbrev pub shared : List (List (K × V)) → ℕ → ℕ → Hash K V
  shared cs size entries = record (table_of calc_hash compare is cs size entries) {
    copy_on_write = true;
  }

  flatten-replicate : (n : ℕ) → flatten (replicate {A = List (K × V)} n []) ≡ []
  unfolding replicate
  flatten-replicate zero = refl
  flatten-replicate (suc n) = flatten-replicate n

  module _ (size : ℕ) where
    abbrev empty : List (List (K × V))
    empty = replicate size []

    -- an entry that goes to the empty marked table goes to the empty table
    create-shared :
        (m : ℕ) (k : K) (v : V)
        → create_at calc_hash compare is (suc m) (shared empty size 0) k v
          ≡ create_at calc_hash compare is (suc m) (table_of calc_hash compare is empty size 0) k v
    unfolding hash_find resize_with copy_entries Option.bind
    create-shared m k v = rw (flatten-replicate size) refl

    module _ (positive : 0 < size) where
      fresh : IsTable calc_hash compare is size empty
      fresh = record {
        sized = length-replicate size [];
        positive = positive;
        placed = Placed-replicate V calc_hash compare is size 0 size;
      }

      -- the copy of the old entries
      copy-shared :
          (m : ℕ) (old : List (K × V))
          → Sized calc_hash compare is size
              (over calc_hash compare is old (lookup calc_hash compare is size empty))
              (Option.map unshared
                (copy_entries (create_at calc_hash compare is (suc m)) old (shared empty size 0)))
      unfolding copy_entries Option.bind
      copy-shared m [] = (0, empty, refl, fresh, λ a. refl)
      copy-shared m ((k, v) ∷ old) =
          let (ds, count, e, x, same) =
            create_lem calc_hash compare is size empty fresh k (suc m) 0 v in
          let (entries', es, f, y, agree) =
            copy_entries_lem calc_hash compare is (suc m) size count ds old x in
          (
            entries',
            es,
            rw (create-shared m k v, e, f) refl,
            y,
            λ a.
                agree a
                ∙ over-cons calc_hash compare is k v old (lookup calc_hash compare is size empty)
                    (lookup calc_hash compare is size ds) same a,
          )

  module _ (size entries : ℕ) (cs : List (List (K × V)))
      (w : IsTable calc_hash compare is size cs) where
    -- the table of its own that the first write makes
    own : Sized calc_hash compare is size (lookup calc_hash compare is size cs) (
        Option.map unshared
          (resize_with (create_at calc_hash compare is 1) (shared cs size entries) size))
    unfolding resize_with
    own =
        let (entries', es, f, y, agree) = copy-shared size w.positive 0 (flatten cs) in
        (
          entries',
          es,
          f,
          y,
          λ a.
              agree a
              ∙ over-none calc_hash compare is (flatten cs)
                  (lookup calc_hash compare is size (replicate size [])) a
                  (lookup-empty calc_hash compare is a size (calc_hash a % size))
              ∙ find_last-flatten calc_hash compare is size 0 (calc_hash a % size) a cs w.placed
                  (omega arith),
        )

    -- A creation in a marked table is a creation in its own copy.
    create-own :
        (key : K) (value : V) (count : ℕ) (es : List (List (K × V)))
        → Option.map unshared
            (resize_with (create_at calc_hash compare is 1) (shared cs size entries) size)
          ≡ some (table_of calc_hash compare is es size count)
        → create_in (shared cs size entries) key value
          ≡ create_in (table_of calc_hash compare is es size count) key value
    unfolding hash_find Option.bind
    create-own key value count es e = rw e refl

    as_own :
        (key : K) (value : V) (count : ℕ) (es : List (List (K × V)))
        → Option.map unshared
            (resize_with (create_at calc_hash compare is 1) (shared cs size entries) size)
          ≡ some (table_of calc_hash compare is es size count)
        → hash_set (shared cs size entries) key value
          ≡ hash_set (table_of calc_hash compare is es size count) key value
    unfolding hash_set
    as_own key value count es e = rw (create-own key value count es e) refl

    -- For a hash and a comparison that agree, and a table in which each key stands once, in the
    -- bucket of its hash: the first `hash_set` on a copy by `hash_cow` returns a table without
    -- a mark, of the same kind, that stands for the map of before with the new value.
    pub hash_set-hash_cow :
        (key : K) (value : V)
        → Stands calc_hash compare is
            (updated calc_hash compare is key value (lookup calc_hash compare is size cs))
            (hash_set (hash_cow (table_of calc_hash compare is cs size entries)) key value)
    unfolding hash_cow
    hash_set-hash_cow key value =
        let (count, es, e, x, same) = own in
        let (size', entries', fs, f, y, agree) =
          hash_set_lem calc_hash compare is size count es key value x in
        (
          size',
          entries',
          fs,
          as_own key value count es e ∙ f,
          y,
          λ a. agree a ∙ ap (λ o. if compare a key then some value else o) (same a),
        )
