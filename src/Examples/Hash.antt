-- ===== src/Examples/Hash.antt =====
-- Hash tables at concrete inputs.
use mathlib.Core.Option
use insomniac.Base.{
  replicate, ◌%◌, ℕ, ◌≡◌, refl, Bool, none, some, arith, List, [], ◌∷◌, if◌then◌else◌,
}
use insomniac.Vm.Text.{c_string, same_text}
use insomniac.Vm.State.{Ptr}
use insomniac.Vm.Ops.Literal
use insomniac.Vm.Tables.{Refines, Refines-hash_set}
use insomniac.Hash.Placed.{Placed-replicate}
use insomniac.Hash.Core.{Hash, hash_set, hash_get, hash_cow, hash_erase, hash_resize}
use insomniac.Hash.Keys.{
  same_text-IsKey, CmpType, is_eq, hash_string_cmp, hash_pointer, hash_pointer_cmp, text_hash,
  hash_string_cmp_lem, hash_pointer-IsKey,
}
use insomniac.Hash.Find.{table_of, IsTable, lookup, updated, changed}
use insomniac.Hash.Set.{lookup-empty, Stands, hash_get-hash_set, hash_resize_lem}
use insomniac.Hash.Share.{hash_set-hash_cow}
use insomniac.Hash.Erase.{hash_erase_lem}

abbrev same : ℕ → ℕ → Bool
same a b = is_eq (hash_pointer_cmp a b)

-- addresses as keys, numbers as values
abbrev buckets : List (List (ℕ × ℕ))
buckets = [] ∷ [] ∷ [] ∷ [] ∷ []

buckets-IsTable : IsTable hash_pointer same hash_pointer-IsKey 4 buckets
buckets-IsTable = record {
  sized = refl;
  positive = omega arith;
  placed = (tt, tt, (tt, tt, (tt, tt, (tt, tt, tt))));
}

abbrev four : Hash ℕ ℕ
four = table_of hash_pointer same hash_pointer-IsKey buckets 4 0

hash_get-hash_set_example :
    Option.bind (hash_set four 7 1) (λ t. hash_get t 7)
    ≡ (if same 7 7 then some (some 1) else hash_get four 7)
hash_get-hash_set_example =
    hash_get-hash_set hash_pointer same hash_pointer-IsKey 4 0 buckets 7 7 1 buckets-IsTable

hash_resize_example :
    Stands hash_pointer same hash_pointer-IsKey
      (lookup hash_pointer same hash_pointer-IsKey 4 buckets)
      (hash_resize four 9)
hash_resize_example =
    hash_resize_lem hash_pointer same hash_pointer-IsKey 4 0 9 buckets buckets-IsTable (omega arith)

hash_set-hash_cow_example :
    Stands hash_pointer same hash_pointer-IsKey
      (updated hash_pointer same hash_pointer-IsKey 7 1
        (lookup hash_pointer same hash_pointer-IsKey 4 buckets))
      (hash_set (hash_cow four) 7 1)
hash_set-hash_cow_example =
    hash_set-hash_cow hash_pointer same hash_pointer-IsKey 4 0 buckets buckets-IsTable 7 1

hash_erase_example :
    (ds : List (List (ℕ × ℕ))) × (hash_erase four 7
      ≡ some (table_of hash_pointer same hash_pointer-IsKey ds 4 0))
    × IsTable hash_pointer same hash_pointer-IsKey 4 ds
    × ((a : ℕ)
        → lookup hash_pointer same hash_pointer-IsKey 4 ds a
          ≡ changed hash_pointer same hash_pointer-IsKey 7 none
              (lookup hash_pointer same hash_pointer-IsKey 4 buckets)
              a)
hash_erase_example =
    hash_erase_lem hash_pointer same hash_pointer-IsKey 4 0 buckets buckets-IsTable 7

ends : c_string (97 ∷ 0 ∷ 5 ∷ []) ≡ some (97 ∷ [])
unfolding c_string
ends = refl

hash_string_cmp_example :
    (c : CmpType) × (hash_string_cmp (97 ∷ 0 ∷ 5 ∷ []) (97 ∷ 0 ∷ 5 ∷ []) ≡ some c)
    × (is_eq c ≡ same_text (97 ∷ []) (97 ∷ []))
hash_string_cmp_example =
    hash_string_cmp_lem (97 ∷ 0 ∷ 5 ∷ []) (97 ∷ 0 ∷ 5 ∷ []) (97 ∷ []) (97 ∷ []) ends ends

four_empty : Refines 4 (replicate 4 []) []
unfolding Literal.hash_get replicate
four_empty = record {
  is_table = record {
    sized = refl;
    positive = omega arith;
    placed = Placed-replicate Ptr (text_hash 0) same_text same_text-IsKey 4 0 4;
  };
  agree = λ a. lookup-empty (text_hash 0) same_text same_text-IsKey a 4 (text_hash 0 a % 4);
}

Refines-hash_set_example :
    Stands
      (text_hash 0)
      same_text
      same_text-IsKey
      (λ a. Literal.hash_get a (Literal.hash_set (97 ∷ []) 5 []))
      (hash_set (table_of (text_hash 0) same_text same_text-IsKey (replicate 4 []) 4 0) (97 ∷ []) 5)
Refines-hash_set_example = Refines-hash_set 4 0 (replicate 4 []) [] (97 ∷ []) 5 four_empty
