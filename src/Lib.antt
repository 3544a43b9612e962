-- ===== src/Lib.antt =====
-- insomniac: a Scheme system in C with a stack machine, its assembler, a bootstrap compiler and the
-- libraries under them. This library models the machine (src/libinsomniac_vm), its characters
-- (src/libinsomniac_vm/vm_utf8.c), the buffers (src/libinsomniac_buffer), the hash tables
-- (src/libinsomniac_hash), the garbage collector (src/libinsomniac_gc), the back end of the bootstrap
-- compiler (src/libinsomniac_bootstrap), the assembler (src/libinsomniac_asm) and the macros with which
-- code is written (src/include/emit.h).
--
-- Vm/State is the data of the machine (src/include/cell.h, src/libinsomniac_vm/vm_internal.h), Vm/Run
-- the runs of C code over it, with undefined behaviour, `assert(0)` and loops without end as outcomes.
-- Vm/Heap has allocation (vm_alloc.c, `cons` of vm_util.c), Vm/Exception environments, the stack and
-- exceptions (vm_env.c, vm_exception.c, `vm_push` and `vm_pop` of vm_core.c), Vm/Core a new machine
-- and a reset (vm_core.c), Vm/Text the C strings. Vm/Ops has the handlers of the instructions by the
-- names of the source (libinsomniac_vm_instructions/vm_*.c), Vm/Opcode their numbers (ops.h), and
-- Vm/Eval the table (`setup_instructions` of vm_ops.c) and the loop (vm_eval.c). A handler calls the
-- stack, the heap and the exceptions as it does in C; the loop calls the handlers through the table.
--
-- Vm/Triple has the rules for runs, Vm/WellFormed the invariant with a lemma for each operation,
-- Vm/Loop the loop as a relation, Vm/Effect what the instructions do, Vm/Table the laws of the tables,
-- Vm/Tables their relation to those of src/libinsomniac_hash,
-- Vm/Code the bytes of operands, Examples concrete machines.
--
-- Utf8/Code is vm_utf8.c by its function names, Utf8/Roundtrip its laws. Buffer/Core has the operations
-- of buffer_core.c and buffer_load.c, Buffer/Contents the invariant of a buffer and its bytes,
-- Buffer/Write and Buffer/Read what the operations do. The assembler writes code through buffers, and
-- the machine loads files through them.
--
-- Hash/Core has the operations of hash_core.c and Hash/Keys the functions on keys
-- (hash_string_functions.c, hash_pointer_functions.c). Hash/Chain, Hash/Placed and Hash/Find relate a
-- table to a map from keys to values, Hash/Set, Hash/Share and Hash/Erase are about the operations. The machine binds variables and symbols in such tables.
--
-- Gc/State is the data of the collector (gc_internal.h), Gc/Types the descriptions of objects
-- (gc_types.c), Gc/Mark the marking of gc_sweep.c, Gc/Sweep its sweeping with the allocation of
-- gc_internals.c and gc_core.c, Gc/Core the other operations of gc_core.c. Gc/Reach says what an object
-- reaches, Gc/Marking/* that marking follows it, Gc/Sweeping/* what a collection, a call of `sweep`
-- and an allocation leave, Gc/Roots, Gc/Perm, Gc/Create and Gc/Destroy the operations of their names.
-- Vm/Types registers the layout of the machine's objects with the collector (vm_types.c), through the
-- operations of Gc/Types. The machine of Vm/State allocates without the collector: the collector
-- is a component of its own here.
--
-- Bootstrap/Stream has the streams of nodes (bootstrap_internal.h, bootstrap_stream.c,
-- bootstrap_stream_nodes.c), Bootstrap/Output the lines that the compiler writes
-- (bootstrap_emit_formatting.c), Bootstrap/Frames the functions of bootstrap_emit.c that write around
-- streams, Bootstrap/Emit those that go through streams and bootstrap_preamble.c, Bootstrap/Shape the streams that the actions of scheme.y build,
-- Bootstrap/Labels/* the labels of the emitted program, Bootstrap/Names their spelling.
--
-- Asm/Core has the functions of asm_core.c for literals, labels and jumps, Asm/Assemble those for
-- debug directives, the loop of `asm_string` and `rewrite_jumps`. Asm/Jumps is about the operands of
-- the jumps, Asm/Loop about the loop, Asm/Program about whole programs and their jumps in the machine,
-- Asm/Items, Asm/Layout and Asm/Places about sources without errors of syntax and the places of their labels.
-- The assembler reads what the compiler writes, through the scanner of lexer.l.
--
-- How the state corresponds. An object is a constructor of `Object` for each type of the union, a
-- `vm_int` its 64-bit pattern; sums and products wrap, as the compilers of the project do it. The stack
-- is the list of the cars of the pairs that only `stack_root` reaches. The registers `reg1` to `reg3`
-- only keep objects from the collector; the debug fields of an environment only serve messages. The
-- code of an environment stands in its record, since nothing writes to it. Allocation takes the next
-- unused address, in the order that suits the model, and fails beyond an address space of 2 ^ 47
-- bytes. The machine sees a hash table as an association list with texts as keys. In C the key is
-- the address of the symbol's bytes: where a program writes to the bytes of a bound name through a
-- byte vector that shares them, the C table changes and that of the model does not.
--
-- Fuel: a search through the environments takes as many rounds as there are addresses; the invariant
-- says that a parent has a smaller address than its child, so that this is enough. The loop of the
-- machine need not end; its fuel is a bound on the number of instructions. The loop of `buffer_write`
-- copies at least a byte in each round, so that the number of bytes is enough.
--
-- A buffer is the list of its blocks up to the last one, the last one, and the number of bytes; a
-- `size_t` is a number below 2 ^ 64. What `read` gives is an argument of `buffer_load`. A `char` is
-- signed, as on the platforms of the project. A hash table is a list of buckets of keys and values,
-- with the functions that its record points to; `hash_find` comes with the value that each caller of
-- CREATE writes. Its calls through `hash_resize` are three deep at most.
--
-- An object of the collector is an address with its meta data and its slots, a function from the
-- offset of a pointer to the pointer; the heap is a function from addresses, and a linked list of
-- objects is the list of their addresses. The registered root variables stand outside the heap and
-- are an argument of the collection. An address that `malloc` gives is one that was not in use before.
-- `mark_graph` calls itself on what it reaches: its fuel bounds the depth of the calls. A call that
-- marks goes down to an object without the mark, or, in a permanent object, to one of lower level,
-- since the theorems ask that permanent objects form no cycle: (fresh + 1) * (top + 2) calls are
-- enough, where `fresh` is the first unused address and `top` the highest level. `sweep` calls itself
-- through `pre_alloc` at most once, so that a depth of two is enough.
--
-- A function of the emitter gives the lines that it writes and the next label, from the next label.
-- The position of a node stands before it in its stream. A node of the source is a union,
-- and a stream may be a null pointer: reading a member that was not written, or through a null
-- pointer, is `none`, and Bootstrap/Shape says which streams avoid that.
--
-- The assembler takes the tokens of the scanner with their texts as an argument; its buffer is the
-- list of the bytes, its labels are an association list. Each round of its loop takes a token, so that
-- the number of tokens is enough fuel.
--
-- Not modelled: files, dynamic libraries, the statistics of the collector and the call of the assembler
-- (vm_io.c, vm_library.c, vm_internals.c), which are an argument of the table; printing (vm_output.c);
-- `gc_stats`, `gc_make_substring`, and the bytes of an object outside its pointers; `buffer_open`; the
-- buckets that a table shares with its copy, and the iteration over tables; the scanner of
-- the assembler (lexer.l) and its types for the collector (asm_types.c); the files that the compiler
-- includes, its parser and its node types (bootstrap_core.c, scheme.y, lexer.l); the main programs and
-- the runtime.
pub mod Base
pub mod Utf8
pub mod Buffer
pub mod Hash
pub mod Gc
pub mod Vm
pub mod Asm
pub mod Bootstrap
pub mod Examples
