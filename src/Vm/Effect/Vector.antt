-- ===== src/Vm/Effect/Vector.antt =====
-- vm_vector.c: vectors and byte vectors.
use insomniac.Base.{
  ℕ, ◌≡◌, ◌≢◌, ◌<◌, ◌≤◌, List, [], ◌∷◌, arith, false, some, ◌*◌, ◌/◌, ◌%◌, ◌^◌, length, set,
  get_elem?, get_elem?-set_self, length-set, replicate, ap, get_elem?-ge,
}
use insomniac.Vm.State.{Ptr, null, Vm, Object, update}
use insomniac.Vm.Run.{done, ◌>>=◌, undefined}
use insomniac.Vm.Word
use insomniac.Vm.Exception.{throw}
use insomniac.Vm.Effect.{with_stack}
use insomniac.Vm.Effect.Math.{allocated}
use insomniac.Vm.Ops.Vector.{op_index_set, op_index_ref, op_make_vector, op_string_byte_vector}

-- an index that the signed test accepts and that lies inside
pub lt-length : (i n : ℕ) → i < n → n < 2 ^ 63 → Word.lt n i ≡ false
lt-length i n h small = ground arith

-- the machine after a write to a cell of the vector at `v`
abbrev pub written : Ptr → List Ptr → ℕ → Ptr → Vm → Vm
written v elements i x vm = record vm {
  objects = update vm.objects v (Object.vector (length elements) (set elements i x));
}

-- a vector of a sensible length at `v`, with an index at `k`
module _ (v x k i : ℕ) (elements : List Ptr) (s : List Ptr) (vm : Vm) (hv : v ≢ null)
    (hx : x ≢ null) (hk : k ≢ null) (distinct : v ≢ k)
    (vector : vm.objects v ≡ some (Object.vector (length elements) elements))
    (index : vm.objects k ≡ some (Object.fixnum i)) (small : length elements < 2 ^ 63) where
  pub op_index_set_lem :
      i < length elements
      → op_index_set (with_stack (v ∷ x ∷ k ∷ s) vm)
        ≡ done tt (with_stack s (written v elements i x vm))
  unfolding op_index_set ◌>>=◌
  op_index_set_lem inside = ground (arith, lt-length i (length elements))

  pub op_index_ref_lem :
      i < length elements
      → get_elem? elements i ≡ some x
      → op_index_ref (with_stack (v ∷ k ∷ s) vm) ≡ done tt (with_stack (x ∷ s) vm)
  unfolding op_index_ref ◌>>=◌
  op_index_ref_lem inside there = ground (arith, lt-length i (length elements))

  -- For a vector of fewer than `2 ^ 63` objects and an index inside it, `index-set!` writes
  -- that one cell, and `index-ref` with the same index then pushes the object that was written.
  pub op_index_ref-op_index_set :
      i < length elements
      → (op_index_set (with_stack (v ∷ x ∷ k ∷ s) vm)
          ≡ done tt (with_stack s (written v elements i x vm)))
        × (op_index_ref (with_stack (v ∷ k ∷ s) (written v elements i x vm))
            ≡ done tt (with_stack (x ∷ s) (written v elements i x vm)))
  unfolding op_index_ref ◌>>=◌
  op_index_ref-op_index_set inside = (
    op_index_set_lem inside,
    ground (
      arith,
      lt-length i (length elements),
      length-set elements i x,
      get_elem?-set_self elements i x,
    ),
  )

  -- For a vector of fewer than `2 ^ 63` objects, the index equal to the length passes the tests
  -- of `index-set!` and of `index-ref`, and both access memory behind the vector.
  pub op_index_past_end :
      i ≡ length elements
      → (op_index_set (with_stack (v ∷ x ∷ k ∷ s) vm) ≡ undefined)
        × (op_index_ref (with_stack (v ∷ k ∷ s) vm) ≡ undefined)
  unfolding op_index_set op_index_ref ◌>>=◌
  op_index_past_end past = (ground arith, ground (arith, get_elem?-ge elements i))

  -- An index further out is thrown, and nothing is written.
  pub op_index-throw :
      length elements < i
      → i < 2 ^ 63
      → (op_index_set (with_stack (v ∷ x ∷ k ∷ s) vm)
          ≡ throw "Set by index requires a vector." (v ∷ []) (with_stack s vm))
        × (op_index_ref (with_stack (v ∷ k ∷ s) vm)
            ≡ throw "Read by index requires a vector." (v ∷ []) (with_stack s vm))
  unfolding op_index_set op_index_ref ◌>>=◌
  op_index-throw out positive = (ground arith, ground arith)

-- A negative index passes the test too, and the access is undefined.
pub op_index_negative :
    (v x k i : ℕ) (elements : List Ptr) (s : List Ptr) (vm : Vm)
    → v ≢ null
    → x ≢ null
    → k ≢ null
    → vm.objects v ≡ some (Object.vector (length elements) elements)
    → vm.objects k ≡ some (Object.fixnum i)
    → length elements < 2 ^ 63
    → 2 ^ 63 ≤ i
    → i < 2 ^ 64
    → (op_index_set (with_stack (v ∷ x ∷ k ∷ s) vm) ≡ undefined)
      × (op_index_ref (with_stack (v ∷ k ∷ s) vm) ≡ undefined)
unfolding op_index_set op_index_ref ◌>>=◌
op_index_negative v x k i elements s vm hv hx hk vector index small low high =
    (ground arith, ground (arith, get_elem?-ge elements i))

-- `make-vector` gives a vector of nulls with the length that was asked for.
pub op_make_vector_lem :
    (k n : ℕ) (s : List Ptr) (vm : Vm)
    → k ≢ null
    → vm.objects k ≡ some (Object.fixnum n)
    → n < 2 ^ 44
    → op_make_vector (with_stack (k ∷ s) vm)
      ≡ done tt (with_stack (vm.next ∷ s) (allocated (Object.vector n (replicate n null)) vm))
unfolding op_make_vector ◌>>=◌
op_make_vector_lem k n s vm hk holds small =
    let size : (8 * n) % 2 ^ 64 / 8 ≡ n = omega arith in
    ground (arith, ap (λ m. replicate m null) size)

-- The byte vector of a string has the same bytes, not a copy.
pub op_string_byte_vector_lem :
    (p n bytes : ℕ) (s : List Ptr) (vm : Vm)
    → p ≢ null
    → vm.objects p ≡ some (Object.string n bytes)
    → op_string_byte_vector (with_stack (p ∷ s) vm)
      ≡ done tt (with_stack (vm.next ∷ s) (allocated (Object.byte_vector n bytes) vm))
unfolding op_string_byte_vector ◌>>=◌
op_string_byte_vector_lem p n bytes s vm hp holds = ground arith
