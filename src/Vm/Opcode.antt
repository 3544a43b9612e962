-- ===== src/Vm/Opcode.antt =====
-- The operation codes of include/ops.h.
use insomniac.Base.{List, [], ◌∷◌}

-- the enumeration `op_type`
pub data Op : Type 0 where
  nop lit_empty lit_fixnum lit_char lit_true lit_false lit_string lit_symbol make_symbol : Op
  cons car cdr set_car set_cdr : Op
  make_vector make_byte_vector make_record index_set index_ref vector_length : Op
  string_byte_vector byte_vector_string : Op
  call adopt proc jmp jnf ret jin call_in tail_call_in continue restore : Op
  bind set read swap rot dup_ref drop depth : Op
  add sub mul div mod_ numeric_equal numeric_lt numeric_gt not eq : Op
  output fd_read fd_write open_ close slurp asm import call_ext : Op
  is_fixnum is_bool is_char is_string is_symbol is_vector is_byte_vector is_record is_pair : Op
  is_empty is_closure is_library is_self set_exit gc_stats : Op

-- in the order of their numbers, from 0
abbrev pub op_codes : List Op
op_codes =
    Op.nop ∷ Op.lit_empty ∷ Op.lit_fixnum ∷ Op.lit_char ∷ Op.lit_true ∷ Op.lit_false ∷ Op.lit_string
    ∷ Op.lit_symbol ∷ Op.make_symbol ∷ Op.cons ∷ Op.car ∷ Op.cdr ∷ Op.set_car ∷ Op.set_cdr
    ∷ Op.make_vector ∷ Op.make_byte_vector ∷ Op.make_record ∷ Op.index_set ∷ Op.index_ref
    ∷ Op.vector_length ∷ Op.string_byte_vector ∷ Op.byte_vector_string ∷ Op.call ∷ Op.adopt
    ∷ Op.proc ∷ Op.jmp ∷ Op.jnf ∷ Op.ret ∷ Op.jin ∷ Op.call_in ∷ Op.tail_call_in ∷ Op.continue
    ∷ Op.restore ∷ Op.bind ∷ Op.set ∷ Op.read ∷ Op.swap ∷ Op.rot ∷ Op.dup_ref ∷ Op.drop ∷ Op.depth
    ∷ Op.add ∷ Op.sub ∷ Op.mul ∷ Op.div ∷ Op.mod_ ∷ Op.numeric_equal ∷ Op.numeric_lt ∷ Op.numeric_gt
    ∷ Op.not ∷ Op.eq ∷ Op.output ∷ Op.fd_read ∷ Op.fd_write ∷ Op.open_ ∷ Op.close ∷ Op.slurp
    ∷ Op.asm ∷ Op.import ∷ Op.call_ext ∷ Op.is_fixnum ∷ Op.is_bool ∷ Op.is_char ∷ Op.is_string
    ∷ Op.is_symbol ∷ Op.is_vector ∷ Op.is_byte_vector ∷ Op.is_record ∷ Op.is_pair ∷ Op.is_empty
    ∷ Op.is_closure ∷ Op.is_library ∷ Op.is_self ∷ Op.set_exit ∷ Op.gc_stats ∷ []
