-- ===== src/Vm/Ops/Literal.antt =====
-- vm_literals.c, and `parse_int`, `parse_string`, `make_symbol` of vm_util.c
use insomniac.Base.{
  ℕ, zero, suc, ◌+◌, ◌*◌, ◌%◌, ◌^◌, Option, none, some, List, [], ◌∷◌, not, if◌then◌else◌,
  get_elem?, drop,
}
use insomniac.Vm.State.{Ptr, CellType, Object, Env, Bindings, has_type}
use insomniac.Vm.Run.{M, pure, gets, need, ◌>>=◌, ◌>>◌}
use insomniac.Vm.Word.{word}
use insomniac.Vm.Text.{c_string, same_text}
use insomniac.Vm.Heap.{
  deref, load_block, load_env, load_table, store_env, store_object, store_table, vm_alloc,
  vm_make_string,
}
use insomniac.Vm.Exception.{vm_push, vm_pop, throw}
use insomniac.Vm.Ops.Logic.{bytes_of}

-- `for (i = count - 1; i >= 0; i--) num = num << 8 | code_ref[ip + i]`, in a type of `range`
-- values. The shift leaves the low byte 0, so that the bitwise or is a sum.
unfoldable pub read_bytes : ℕ → List ℕ → ℕ → ℕ → Option ℕ
read_bytes range code zero num = some num
read_bytes range code (suc i) num = elim (get_elem? code i) [
  | none ↦ none
  | some byte ↦ read_bytes range code i ((num * 256) % range + byte)
]

unfoldable pub current_env : M Env
unfolding load_env
current_env = gets (λ vm. vm.env) >>= load_env

-- `vm->env->ip += distance`
unfoldable pub advance : ℕ → M (Unit {0})
unfolding load_env store_env
advance distance = do
  p ← gets (λ vm. vm.env)
  e ← load_env p
  store_env p (record e { ip = (e.ip + distance) % word })

unfoldable pub parse_int : M ℕ
unfolding current_env read_bytes advance
parse_int = do
  e ← current_env
  num ← need (read_bytes word (drop e.ip e.code_ref) 8 0)
  advance 8
  pure num

unfoldable pub parse_string : M Ptr
unfolding parse_int current_env vm_make_string advance
parse_string = do
  length ← parse_int
  e ← current_env
  obj ← vm_make_string (drop e.ip e.code_ref) length
  advance length
  pure obj

-- `hash_get` and `hash_set` on a table with C strings for keys
unfoldable pub hash_get : List ℕ → Bindings → Option Ptr
unfolding same_text
hash_get key [] = none
hash_get key ((k, v) ∷ table) = if same_text key k then some v else hash_get key table

unfoldable pub hash_set : List ℕ → Ptr → Bindings → Bindings
unfolding same_text
hash_set key value [] = (key, value) ∷ []
hash_set key value ((k, v) ∷ table) =
    if same_text key k then (k, value) ∷ table else (k, v) ∷ hash_set key value table

-- the name that `value.string.bytes` leads to
unfoldable pub name_of : Ptr → M (List ℕ)
unfolding deref bytes_of load_block c_string
name_of obj = do
  o ← deref obj
  bytes ← need (bytes_of o)
  block ← load_block bytes.1
  need (c_string block)

-- a new symbol keeps the object and its bytes and changes its type
unfoldable pub become_symbol : Ptr → List ℕ → M Ptr
unfolding deref bytes_of load_table store_object store_table hash_set
become_symbol obj name = do
  o ← deref obj
  bytes ← need (bytes_of o)
  store_object obj (Object.symbol bytes.0 bytes.1)
  p ← gets (λ vm. vm.symbol_table)
  table ← load_table p
  store_table p (hash_set name obj table)
  pure obj

unfoldable pub intern : Ptr → List ℕ → Option Ptr → M Ptr
unfolding become_symbol
intern obj name (some known) = pure known
intern obj name none = become_symbol obj name

unfoldable pub make_symbol : Ptr → M Ptr
unfolding name_of load_table hash_get intern
make_symbol obj = do
  name ← name_of obj
  p ← gets (λ vm. vm.symbol_table)
  table ← load_table p
  intern obj name (hash_get name table)

unfoldable pub op_lit_64bit : M (Unit {0})
unfolding parse_int vm_alloc vm_push
op_lit_64bit = do num ← parse_int; obj ← vm_alloc (Object.fixnum num); vm_push obj

-- the loop reads five bytes into the 32 bits of the character
unfoldable pub op_lit_char : M (Unit {0})
unfolding current_env read_bytes advance vm_alloc vm_push
op_lit_char = do
  e ← current_env
  character ← need (read_bytes (2 ^ 32) (drop e.ip e.code_ref) 5 0)
  advance 4
  obj ← vm_alloc (Object.char character)
  vm_push obj

unfoldable pub op_lit_empty : M (Unit {0})
unfolding vm_push
op_lit_empty = gets (λ vm. vm.empty) >>= vm_push

unfoldable pub op_lit_true : M (Unit {0})
unfolding vm_push
op_lit_true = gets (λ vm. vm.vm_true) >>= vm_push

unfoldable pub op_lit_false : M (Unit {0})
unfolding vm_push
op_lit_false = gets (λ vm. vm.vm_false) >>= vm_push

unfoldable pub op_lit_string : M (Unit {0})
unfolding parse_string vm_push
op_lit_string = do obj ← parse_string; vm_push obj

unfoldable pub op_lit_symbol : M (Unit {0})
unfolding parse_string make_symbol vm_push
op_lit_symbol = do obj ← parse_string; symbol ← make_symbol obj; vm_push symbol

-- the code goes on after `throw`
unfoldable pub op_make_symbol : M (Unit {0})
unfolding vm_pop deref make_symbol vm_push
op_make_symbol = do
  reg1 ← vm_pop
  o ← deref reg1
  if not (has_type o CellType.string)
      then throw "Only string can be converted into a symbol." (reg1 ∷ [])
      else pure tt
  symbol ← make_symbol reg1
  vm_push symbol
