-- ===== src/Hash/Set.antt =====
-- `hash_set` and the growth of a table.
use insomniac.Base.{
  ℕ, zero, suc, ◌≡◌, ◌<◌, ◌%◌, refl, arith, ap, ◌∙◌, Bool, Option, none, some, List, [], ◌∷◌,
  if◌then◌else◌, Bool-cases, inl, inr, get_elem?, length-replicate, replicate,
}
use mathlib.Core.Option
use insomniac.Hash.Core.{
  Hash, Action, find_in, flatten, copy_entries, hash_find, hash_get, hash_set, hash_resize,
  hash_create, overloaded, new_size,
}
use insomniac.Hash.Chain.{IsKey, find_last}
use insomniac.Hash.Placed.{Placed-replicate, find_last-flatten}
use insomniac.Hash.Find.{table_of, IsTable, lookup, updated, create_lem, hash_get_lem}

module _ {K V : Type 0} (calc_hash : K → ℕ) (compare : K → K → Bool)
    (is : IsKey calc_hash compare) where
  -- the outcome is a table of `size` buckets that stands for the map
  abbrev pub Sized : ℕ → (K → Option V) → Option (Hash K V) → Type 0
  Sized size f r =
      (entries : ℕ) × (cs : List (List (K × V))) × (r
        ≡ some (table_of calc_hash compare is cs size entries))
      × IsTable calc_hash compare is size cs
      × ((a : K) → lookup calc_hash compare is size cs a ≡ f a)

  -- of any size
  abbrev pub Stands : (K → Option V) → Option (Hash K V) → Type 0
  Stands f r =
      (size entries : ℕ) × (cs : List (List (K × V))) × (r
        ≡ some (table_of calc_hash compare is cs size entries))
      × IsTable calc_hash compare is size cs
      × ((a : K) → lookup calc_hash compare is size cs a ≡ f a)

  -- the map with the entries of a list, the later ones first
  abbrev pub over : List (K × V) → (K → Option V) → K → Option V
  over old f a = elim (find_last calc_hash compare is a old) [ none ↦ f a | some v ↦ some v ]

  pub over-cons :
      (k : K) (v : V) (old : List (K × V)) (f g : K → Option V)
      → ((a : K) → g a ≡ updated calc_hash compare is k v f a)
      → (a : K) → over old g a ≡ over ((k, v) ∷ old) f a
  over-cons k v old f g h a = ground (arith, h a)

  -- `hash_find` with CREATE, at some depth of the calls
  abbrev pub create_at : ℕ → Hash K V → K → V → Option (Hash K V)
  create_at m t key value = Option.map (λ r. r.0) (hash_find (suc m) t key (Action.create value))

  pub copy_entries_lem :
      (m size entries : ℕ) (cs : List (List (K × V))) (old : List (K × V))
      → IsTable calc_hash compare is size cs
      → Sized size
          (over old (lookup calc_hash compare is size cs))
          (copy_entries (create_at m) old (table_of calc_hash compare is cs size entries))
  unfolding copy_entries Option.bind
  copy_entries_lem m size entries cs [] w = (entries, cs, refl, w, λ a. refl)
  copy_entries_lem m size entries cs ((k, v) ∷ old) w =
      let (ds, count, e, x, same) = create_lem calc_hash compare is size cs w k m entries v in
      let (entries', es, f, y, agree) = copy_entries_lem m size count ds old x in
      (
        entries',
        es,
        rw e f,
        y,
        λ a.
            agree a
            ∙ over-cons k v old (lookup calc_hash compare is size cs)
                (lookup calc_hash compare is size ds) same a,
      )

  pub over-none :
      (old : List (K × V)) (f : K → Option V) (a : K)
      → f a ≡ none
      → over old f a ≡ find_last calc_hash compare is a old
  over-none old f a h = ground (arith, h)

  pub lookup-empty :
      (a : K) (n i : ℕ)
      → Option.bind (get_elem? (replicate {A = List (K × V)} n []) i) (find_in compare a) ≡ none
  unfolding replicate Option.bind find_in
  lookup-empty a zero i = refl
  lookup-empty a (suc n) zero = refl
  lookup-empty a (suc n) (suc i) = lookup-empty a n i

  -- For a hash and a comparison that agree, and a table without a mark in which each key stands
  -- once, in the bucket of its hash: `hash_resize` to a size above 0 returns a table of the
  -- same kind that has the same value for each key.
  pub hash_resize_lem :
      (size entries new : ℕ) (cs : List (List (K × V)))
      → IsTable calc_hash compare is size cs
      → 0 < new
      → Stands
          (lookup calc_hash compare is size cs)
          (hash_resize (table_of calc_hash compare is cs size entries) new)
  unfolding hash_resize Option.bind
  hash_resize_lem size entries new cs w positive =
      let fresh : IsTable calc_hash compare is new (replicate new []) = record {
        sized = length-replicate new [];
        positive = positive;
        placed = Placed-replicate V calc_hash compare is new 0 new;
      } in
      let (entries', es, f, y, agree) =
        copy_entries_lem 2 new 0 (replicate new []) (flatten cs) fresh in
      (
        new,
        entries',
        es,
        f,
        y,
        λ a.
            agree a
            ∙ over-none (flatten cs) (lookup calc_hash compare is new (replicate new [])) a
                (lookup-empty a new (calc_hash a % new))
            ∙ find_last-flatten calc_hash compare is size 0 (calc_hash a % size) a cs w.placed
                (omega arith),
      )

  -- For a hash and a comparison that agree, `hash_create` returns a table of the kind that the
  -- other operations ask for, in which no key has a value.
  pub hash_create_lem : Stands (λ a. none) (hash_create calc_hash compare)
  unfolding hash_create hash_resize copy_entries
  hash_create_lem = (
    4,
    0,
    replicate 4 [],
    refl,
    record {
      sized = length-replicate 4 [];
      positive = omega arith;
      placed = Placed-replicate V calc_hash compare is 4 0 4;
    },
    λ a. lookup-empty a 4 (calc_hash a % 4),
  )

  -- `hash_set` ends, whether or not the table grows, and changes the map at the key.
  pub hash_set_lem :
      (size entries : ℕ) (cs : List (List (K × V))) (key : K) (value : V)
      → IsTable calc_hash compare is size cs
      → Stands
          (updated calc_hash compare is key value (lookup calc_hash compare is size cs))
          (hash_set (table_of calc_hash compare is cs size entries) key value)
  unfolding hash_set Option.bind
  hash_set_lem size entries cs key value w =
      let (ds, count, e, x, same) = create_lem calc_hash compare is size cs w key 2 entries value in
      let t = table_of calc_hash compare is ds size count in
      elim (Bool-cases (overloaded t)) [
        | inl b ↦
            let (size', entries', es, f, y, agree) =
              hash_resize_lem size count (new_size t) ds x (omega arith) in
            (size', entries', es, rw (e, b) f, y, λ a. agree a ∙ same a)
        | inr b ↦ (size, count, ds, rw (e, b) refl, x, same)
      ]

  -- For a hash and a comparison that agree, and a table without a mark in which each key stands
  -- once, in the bucket of its hash: `hash_set` returns, whether or not the table grows, and a
  -- later `hash_get` gives the new value for the keys that compare equal, and for all others
  -- what it gave before.
  pub hash_get-hash_set :
      (size entries : ℕ) (cs : List (List (K × V))) (key a : K) (value : V)
      → IsTable calc_hash compare is size cs
      → Option.bind
          (hash_set (table_of calc_hash compare is cs size entries) key value)
          (λ t. hash_get t a)
        ≡ (if compare a key
            then some (some value)
            else hash_get (table_of calc_hash compare is cs size entries) a)
  unfolding Option.bind
  hash_get-hash_set size entries cs key a value w =
      let (size', entries', es, f, y, agree) = hash_set_lem size entries cs key value w in
      rw
        (
          f,
          hash_get_lem calc_hash compare is size' es y a entries',
          hash_get_lem calc_hash compare is size cs w a entries,
        )
        (ap some (agree a) ∙ moved)
    where
      moved :
          some (updated calc_hash compare is key value (lookup calc_hash compare is size cs) a) ≡ (
            if compare a key
            then some (some value)
            else some (lookup calc_hash compare is size cs a))
      moved = ground arith
