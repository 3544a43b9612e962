-- ===== src/Vm/State.antt =====
-- The state of the machine: include/cell.h and libinsomniac_vm/vm_internal.h.
use insomniac.Base.{ℕ, Bool, Option, List, if◌then◌else◌, ◌==◌}

-- An address; 0 is the null pointer.
abbrev pub Ptr : Type 0
Ptr = ℕ

abbrev pub null : Ptr
null = 0

pub data CellType : Type 0 where
  fixnum bool char string symbol vector byte_vector record_type pair empty closure library :
      CellType

-- The tagged union `struct object`. A `vm_int` is its 64-bit pattern. The array of a vector belongs
-- to one object, so it stands inside it; bytes can be shared and stand in a block of their own.
pub data Object : Type 0 where
  fixnum : (integer : ℕ) → Object
  bool : (boolean : Bool) → Object
  char : (character : ℕ) → Object
  string : (length : ℕ) (bytes : Ptr) → Object
  symbol : (length : ℕ) (bytes : Ptr) → Object
  vector : (length : ℕ) (elements : List Ptr) → Object
  byte_vector : (length : ℕ) (bytes : Ptr) → Object
  record_type : (length : ℕ) (elements : List Ptr) → Object
  pair : (car cdr : Ptr) → Object
  empty : Object
  closure : (env : Ptr) → Object
  library : Object

abbrev pub type_of : Object → CellType
type_of (Object.fixnum _) = CellType.fixnum
type_of (Object.bool _) = CellType.bool
type_of (Object.char _) = CellType.char
type_of (Object.string _ _) = CellType.string
type_of (Object.symbol _ _) = CellType.symbol
type_of (Object.vector _ _) = CellType.vector
type_of (Object.byte_vector _ _) = CellType.byte_vector
type_of (Object.record_type _ _) = CellType.record_type
type_of (Object.pair _ _) = CellType.pair
type_of Object.empty = CellType.empty
type_of (Object.closure _) = CellType.closure
type_of Object.library = CellType.library

-- the numbers of the enumeration
abbrev pub cell_number : CellType → ℕ
cell_number CellType.fixnum = 0
cell_number CellType.bool = 1
cell_number CellType.char = 2
cell_number CellType.string = 3
cell_number CellType.symbol = 4
cell_number CellType.vector = 5
cell_number CellType.byte_vector = 6
cell_number CellType.record_type = 7
cell_number CellType.pair = 8
cell_number CellType.empty = 9
cell_number CellType.closure = 10
cell_number CellType.library = 11

-- `obj->type == t`
abbrev pub has_type : Object → CellType → Bool
has_type o t = cell_number (type_of o) == cell_number t

-- `struct env`, less the two fields with the positions for error messages. Code is not changed
-- once it is assembled, so its bytes stand in the record.
pub record Env : Type 0 where
  pub code_ref : List ℕ
  pub length : ℕ
  pub ip : ℕ
  pub bindings : Ptr
  pub handler : Bool
  pub handler_addr : ℕ
  pub parent : Ptr

-- What a hash table keyed by C strings stands for: the newest entry of a key comes first.
abbrev pub Bindings : Type 0
Bindings = List (List ℕ × Ptr)

-- `struct vm_internal`. The stack is a chain of pairs that only `stack_root` reaches, so the list
-- of their cars stands for it. The registers `reg1` to `reg3` keep objects from the collector and
-- hold nothing across instructions. `next` is the next unused address.
pub record Vm : Type 0 where
  pub stack : List Ptr
  pub depth : ℕ
  pub empty : Ptr
  pub vm_true : Ptr
  pub vm_false : Ptr
  pub symbol_table : Ptr
  pub env : Ptr
  pub exit_status : ℕ
  pub objects : Ptr → Option Object
  pub blocks : Ptr → Option (List ℕ)
  pub envs : Ptr → Option Env
  pub tables : Ptr → Option Bindings
  pub next : Ptr

-- a write to one of the four stores
abbrev pub update : {A : Type 0} → (Ptr → Option A) → Ptr → A → Ptr → Option A
update f p v q = if p == q then Option.some v else f q
