-- ===== src/Hash/Core.antt =====
-- hash_core.c. A table stands for itself and its buckets: that a table shares its buckets with a copy
-- made by `hash_cow` until the copy is written is not modelled.
use insomniac.Base.{
  ℕ, zero, suc, ◌+◌, ◌*◌, ◌/◌, ◌%◌, Bool, true, false, ◌&&◌, Option, none, some, List, [], ◌∷◌,
  ◌++◌, if◌then◌else◌, ltb, get_elem?, set, replicate,
}
use mathlib.Core.Option

module _ {K V : Type 0} where
  -- the key and value pairs in the order of the buckets
  abbrev pub flatten : List (List (K × V)) → List (K × V)
  flatten [] = []
  flatten (c ∷ cs) = c ++ flatten cs

-- `struct hash_internal`, with `compare(a, b) == EQ` as a test
pub record Hash (K V : Type 0) : Type 0 where
  pub calc_hash : K → ℕ
  pub compare : K → K → Bool
  pub table : List (List (K × V))
  pub size : ℕ
  pub entries : ℕ
  pub copy_on_write : Bool

-- `hash_action_type`. Every caller writes the value of what CREATE returns, so that it comes along.
pub data Action (V : Type 0) : Type 0 where
  read delete : Action V
  create : V → Action V

abbrev pub writes : {V : Type 0} → Action V → Bool
writes Action.read = false
writes Action.delete = true
writes (Action.create _) = true

module _ {K V : Type 0} (compare : K → K → Bool) (key : K) where
  unfoldable pub find_in : List (K × V) → Option V
  find_in [] = none
  find_in ((k, v) ∷ c) = let rest = find_in c in if compare key k then some v else rest

  -- the value of the first entry with the key is written
  unfoldable pub write_in : V → List (K × V) → List (K × V)
  write_in value [] = []
  write_in value ((k, v) ∷ c) =
      let rest = write_in value c in if compare key k then (k, value) ∷ c else (k, v) ∷ rest

  -- the first entry with the key is taken out of the chain
  unfoldable pub remove_in : List (K × V) → List (K × V)
  remove_in [] = []
  remove_in ((k, v) ∷ c) = let rest = remove_in c in if compare key k then c else (k, v) ∷ rest

-- one more than the depth of the calls
abbrev pub depth : ℕ
depth = 3

module _ {K V : Type 0} where
  -- Copies the old entries into a table of the new size; `add` is `hash_find` with CREATE.
  unfoldable pub copy_entries :
      (Hash K V → K → V → Option (Hash K V)) → List (K × V) → Hash K V → Option (Hash K V)
  copy_entries add [] t = some t
  copy_entries add ((k, v) ∷ old) t = Option.bind (add t k v) (copy_entries add old)

  unfoldable pub resize_with :
      (Hash K V → K → V → Option (Hash K V)) → Hash K V → ℕ → Option (Hash K V)
  unfolding copy_entries
  resize_with add t size =
      copy_entries add (flatten t.table)
        (record t { table = replicate size []; size = size; entries = 0 })

  -- the change of the bucket, and what was found; `none` is a read out of bounds
  unfoldable pub act : Hash K V → ℕ → K → Action V → List (K × V) → Option V → Hash K V × Option V
  unfolding write_in remove_in
  act t index key Action.read chain found = (t, found)
  act t index key Action.delete chain none = (t, none)
  act t index key Action.delete chain (some v) =
      (record t { table = set t.table index (remove_in t.compare key chain) }, some v)
  act t index key (Action.create value) chain none = (
    record t { table = set t.table index ((key, value) ∷ chain); entries = t.entries + 1 },
    some value,
  )
  act t index key (Action.create value) chain (some v) =
      (record t { table = set t.table index (write_in t.compare key value chain) }, some value)

  abbrev pub unshared : Hash K V → Hash K V
  unshared t = record t { copy_on_write = false }

  -- The fuel bounds the nested calls: a table that is copied on write is resized by calls of
  -- `hash_find`, the first of which finds it marked still and resizes the empty table once more.
  unfoldable pub hash_find : ℕ → Hash K V → K → Action V → Option (Hash K V × Option V)
  unfolding find_in resize_with act
  hash_find zero t key action = none
  hash_find (suc n) t key action =
      let index = t.calc_hash key % t.size in
      let copied =
        resize_with (λ u k v. Option.map (λ r. r.0) (hash_find n u k (Action.create v))) t t.size in
      Option.bind (if t.copy_on_write && writes action then Option.map unshared copied else some t)
        λ u.
          Option.map (λ chain. act u index key action chain (find_in u.compare key chain))
            (get_elem? u.table index)

  abbrev pub create_in : Hash K V → K → V → Option (Hash K V)
  create_in t key value = Option.map (λ r. r.0) (hash_find depth t key (Action.create value))

  unfoldable pub hash_resize : Hash K V → ℕ → Option (Hash K V)
  unfolding resize_with hash_find
  hash_resize = resize_with create_in

  -- `HASH_SIZE` buckets
  unfoldable pub hash_create : (K → ℕ) → (K → K → Bool) → Option (Hash K V)
  unfolding hash_resize
  hash_create fn cmp =
      hash_resize
        (record {
          calc_hash = fn;
          compare = cmp;
          table = [];
          size = 0;
          entries = 0;
          copy_on_write = false;
        })
        4

  unfoldable pub hash_cow : Hash K V → Hash K V
  hash_cow src = record src { copy_on_write = true }

  -- `hash_load(table) > MAX_LOAD`, exact in a `float` up to a million buckets
  abbrev pub overloaded : Hash K V → Bool
  overloaded t = ltb (t.size * 9) (t.entries * 10)

  -- `floor(entries / TARGET_LOAD) + 1`
  abbrev pub new_size : Hash K V → ℕ
  new_size t = t.entries * 5 / 3 + 1

  unfoldable pub hash_set : Hash K V → K → V → Option (Hash K V)
  unfolding hash_find hash_resize
  hash_set t key value =
      Option.bind (create_in t key value)
        λ u. let grown = hash_resize u (new_size u) in if overloaded u then grown else some u

  unfoldable pub hash_erase : Hash K V → K → Option (Hash K V)
  unfolding hash_find
  hash_erase t key = Option.map (λ r. r.0) (hash_find depth t key Action.delete)

  unfoldable pub hash_get : Hash K V → K → Option (Option V)
  unfolding hash_find
  hash_get t key = Option.map (λ r. r.1) (hash_find depth t key Action.read)

  unfoldable pub hash_size : Hash K V → ℕ
  hash_size t = t.entries
