-- ===== src/Vm/Tables.antt =====
-- The tables of the machine and those of libinsomniac_hash with C strings as keys.
use insomniac.Base.{ℕ, ◌≡◌, ◌∙◌, sym, some, List, if◌then◌else◌}
use insomniac.Vm.State.{Ptr, Bindings}
use insomniac.Vm.Text.{same_text}
use insomniac.Vm.Ops.Literal.{hash_get, hash_set}
use insomniac.Vm.Table
use insomniac.Hash.Core
use insomniac.Hash.Keys.{text_hash, same_text-IsKey}
use insomniac.Hash.Find.{table_of, IsTable, lookup}
use insomniac.Hash.Set.{Stands, hash_set_lem}

-- the table of C strings and the association list have the same values
pub record Refines (size : ℕ) (cs : List (List (List ℕ × Ptr))) (t : Bindings) : Type 0 where
  pub is_table : IsTable (text_hash 0) same_text same_text-IsKey size cs
  pub agree : (a : List ℕ) → lookup (text_hash 0) same_text same_text-IsKey size cs a ≡ hash_get a t

-- Where a table of C strings, with the hash and the comparison of the source, has the same
-- values as an association list of the machine, `hash_set` returns a table of the same kind
-- that has the same values as the list after the machine's own write.
pub Refines-hash_set :
    (size entries : ℕ) (cs : List (List (List ℕ × Ptr))) (t : Bindings) (key : List ℕ) (value : Ptr)
    → Refines size cs t
    → Stands
        (text_hash 0)
        same_text
        same_text-IsKey
        (λ a. hash_get a (hash_set key value t))
        (Core.hash_set (table_of (text_hash 0) same_text same_text-IsKey cs size entries) key value)
Refines-hash_set size entries cs t key value r =
    let (size', entries', ds, e, w, same) =
      hash_set_lem (text_hash 0) same_text same_text-IsKey size entries cs key value r.is_table in
    (size', entries', ds, e, w, λ a. same a ∙ one a)
  where
    one :
        (a : List ℕ)
        → (if same_text a key
            then some value
            else lookup (text_hash 0) same_text same_text-IsKey size cs a)
          ≡ hash_get a (hash_set key value t)
    one a = rw (r.agree a) (sym (Table.hash_get-hash_set a key value t))
