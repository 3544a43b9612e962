-- ===== src/Vm/Ops/Vector.antt =====
-- vm_vector.c
use insomniac.Base.{
  ℕ, ◌%◌, Bool, not, ◌&&◌, ◌||◌, Option, none, some, List, [], ◌∷◌, if◌then◌else◌, get_elem?, set,
  length, ltb,
}
use insomniac.Vm.State.{Ptr, CellType, Object, has_type}
use insomniac.Vm.Run.{M, fault, need, ◌>>=◌}
use insomniac.Vm.Word
use insomniac.Vm.Heap.{
  deref, load_block, store_block, store_object, vm_alloc, vm_make_string, vm_make_vector,
  vm_make_byte_vector, vm_make_record, is_type,
}
use insomniac.Vm.Exception.{vm_push, vm_pop, throw}
use insomniac.Vm.Ops.Logic.{bytes_of}
use insomniac.Vm.Ops.Math.{load_integer}

-- The three allocating instructions differ in what they make and in the message.
unfoldable pub op_make_byte_vector : M (Unit {0})
unfolding vm_pop deref load_integer vm_make_byte_vector vm_push
op_make_byte_vector = do
  obj ← vm_pop
  o ← deref obj
  if not (has_type o CellType.fixnum)
      then throw "Make byte vector requires a number argument." (obj ∷ [])
      else (do length ← load_integer obj; made ← vm_make_byte_vector length; vm_push made)

unfoldable pub op_make_vector : M (Unit {0})
unfolding vm_pop deref load_integer vm_make_vector vm_push
op_make_vector = do
  obj ← vm_pop
  o ← deref obj
  if not (has_type o CellType.fixnum)
      then throw "Make vector requires a number argument." (obj ∷ [])
      else (do length ← load_integer obj; made ← vm_make_vector length; vm_push made)

unfoldable pub op_make_record : M (Unit {0})
unfolding vm_pop deref load_integer vm_make_record vm_push
op_make_record = do
  obj ← vm_pop
  o ← deref obj
  if not (has_type o CellType.fixnum)
      then throw "Make record requires a number argument." (obj ∷ [])
      else (do length ← load_integer obj; made ← vm_make_record length; vm_push made)

-- `value.vector.length`, which the byte vector has at the same place
unfoldable pub length_of : Object → Option ℕ
length_of (Object.vector n _) = some n
length_of (Object.record_type n _) = some n
length_of (Object.byte_vector n _) = some n
length_of _ = none

unfoldable pub op_vector_length : M (Unit {0})
unfolding vm_pop deref length_of vm_alloc vm_push
op_vector_length = do
  obj ← vm_pop
  o ← deref obj
  if not (has_type o CellType.vector) && not (has_type o CellType.byte_vector)
      then throw "Attempt to read vector length of non-vector!" (obj ∷ [])
      else (do n ← need (length_of o); length ← vm_alloc (Object.fixnum n); vm_push length)

-- `vector`, `RECORD` or `BYTE_VECTOR`, with `length >= index` between signed numbers
unfoldable pub can_index : Object → ℕ → Bool
unfolding length_of
can_index o index = in_length (length_of o)
  where
    in_length : Option ℕ → Bool
    in_length none = Bool.false
    in_length (some n) = not (Word.lt n index)

-- `vector->value.vector.vector[index] = obj`, undefined outside the array
unfoldable pub set_cell : Ptr → Object → ℕ → Ptr → M (Unit {0})
unfolding store_object
set_cell vector (Object.vector n elements) index obj =
    if ltb index (length elements)
    then store_object vector (Object.vector n (set elements index obj))
    else fault
set_cell vector (Object.record_type n elements) index obj =
    if ltb index (length elements)
    then store_object vector (Object.record_type n (set elements index obj))
    else fault
set_cell vector _ index obj = fault

-- A `uint8_t` is stored. The tables hold the texts of their keys: a write to the bytes of a symbol
-- that is bound, through the byte vector of the string that it was made from, is not seen in them.
unfoldable pub set_byte : Object → ℕ → ℕ → M (Unit {0})
unfolding bytes_of load_block store_block
set_byte o index value = do
  bytes ← need (bytes_of o)
  block ← load_block bytes.1
  if ltb index (length block) then store_block bytes.1 (set block index (value % 256)) else fault

unfoldable pub op_index_set : M (Unit {0})
unfolding vm_pop deref load_integer can_index set_cell set_byte
op_index_set = do
  vector ← vm_pop
  obj ← vm_pop
  obj_index ← vm_pop
  oi ← deref obj_index
  if not (has_type oi CellType.fixnum)
      then throw "The index must be a number." (obj_index ∷ [])
      else (do
        index ← load_integer obj_index
        o ← deref vector
        if not (can_index o index)
            then throw "Set by index requires a vector." (vector ∷ [])
            else if has_type o CellType.vector || has_type o CellType.record_type
            then set_cell vector o index obj
            else (do
              is_number ← is_type obj CellType.fixnum
              if is_number
                  then (do value ← load_integer obj; set_byte o index value)
                  else throw "Byte vectors may only contain numbers." (obj ∷ [])))

unfoldable pub elements_of : Object → Option (List Ptr)
elements_of (Object.vector _ elements) = some elements
elements_of (Object.record_type _ elements) = some elements
elements_of _ = none

unfoldable pub get_cell : Object → ℕ → M Ptr
unfolding elements_of
get_cell o index = do elements ← need (elements_of o); need (get_elem? elements index)

-- a byte is made a number
unfoldable pub get_byte : Object → ℕ → M Ptr
unfolding bytes_of load_block vm_alloc
get_byte o index = do
  bytes ← need (bytes_of o)
  block ← load_block bytes.1
  byte ← need (get_elem? block index)
  vm_alloc (Object.fixnum byte)

unfoldable pub op_index_ref : M (Unit {0})
unfolding vm_pop deref load_integer can_index get_cell get_byte vm_push
op_index_ref = do
  vector ← vm_pop
  obj_index ← vm_pop
  oi ← deref obj_index
  if not (has_type oi CellType.fixnum)
      then throw "The index must be a number." (obj_index ∷ [])
      else (do
        index ← load_integer obj_index
        o ← deref vector
        if not (can_index o index)
            then throw "Read by index requires a vector." (vector ∷ [])
            else (do
              obj ←
                  if has_type o CellType.vector || has_type o CellType.record_type
                  then get_cell o index
                  else get_byte o index
              vm_push obj))

-- the byte vector shares the bytes of the string
unfoldable pub op_string_byte_vector : M (Unit {0})
unfolding vm_pop deref bytes_of vm_alloc vm_push
op_string_byte_vector = do
  string ← vm_pop
  o ← deref string
  if not (has_type o CellType.string)
      then throw "str->u8 requires a string argument." (string ∷ [])
      else (do
        bytes ← need (bytes_of o)
        slice ← vm_alloc (Object.byte_vector bytes.0 bytes.1)
        vm_push slice)

-- the string has a copy of the bytes
unfoldable pub op_byte_vector_string : M (Unit {0})
unfolding vm_pop deref bytes_of load_block vm_make_string vm_push
op_byte_vector_string = do
  vector ← vm_pop
  o ← deref vector
  if not (has_type o CellType.byte_vector)
      then throw "u8->str requires a bytevector argument." (vector ∷ [])
      else (do
        bytes ← need (bytes_of o)
        block ← load_block bytes.1
        string ← vm_make_string block bytes.0
        vm_push string)
