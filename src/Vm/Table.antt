-- ===== src/Vm/Table.antt =====
-- The laws of a hash table as the machine sees it: a map from C strings to objects.
use insomniac.Base.{ℕ, ◌≡◌, refl, List, [], ◌∷◌, arith, true, some, if◌then◌else◌}
use insomniac.Vm.State.{Ptr, Bindings}
use insomniac.Vm.Text.{same_text}
use insomniac.Vm.Ops.Literal.{hash_get, hash_set}

pub same_text→eq : (a b : List ℕ) → same_text a b ≡ true → a ≡ b
unfolding same_text
same_text→eq [] [] h = refl
same_text→eq [] (b ∷ bs) h = cc
same_text→eq (a ∷ as') [] h = cc
same_text→eq (a ∷ as') (b ∷ bs) h = ground (arith, same_text→eq as' bs)

pub same_text_refl : (a : List ℕ) → same_text a a ≡ true
unfolding same_text
same_text_refl [] = refl
same_text_refl (a ∷ as') = ground (arith, same_text_refl as')

pub same_text_sym : (a b : List ℕ) → same_text a b ≡ same_text b a
unfolding same_text
same_text_sym [] [] = refl
same_text_sym [] (b ∷ bs) = refl
same_text_sym (a ∷ as') [] = refl
same_text_sym (a ∷ as') (b ∷ bs) = ground (arith, same_text_sym as' bs)

-- After a write of a key to the table, a lookup gives the new value for the keys with the same
-- text, and what it gave before for all others.
pub hash_get-hash_set :
    (key k : List ℕ) (v : Ptr) (t : Bindings)
    → hash_get key (hash_set k v t) ≡ (if same_text key k then some v else hash_get key t)
unfolding hash_get hash_set
hash_get-hash_set key k v [] = refl
hash_get-hash_set key k v ((j, w) ∷ t) = ground (
  arith,
  hash_get-hash_set key k v t,
  same_text→eq key k,
  same_text→eq key j,
  same_text→eq k j,
  same_text_refl key,
  same_text_sym key k,
)
