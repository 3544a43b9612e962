-- ===== src/Vm/Core.antt =====
-- vm_core.c: a new machine, and a machine set back.
use insomniac.Base.{true, false, none, []}
use insomniac.Vm.State.{Object, Vm}
use insomniac.Vm.Run.{M, modify, ◌>>=◌, ◌>>◌}
use insomniac.Vm.Heap.{vm_alloc, allocate_table}
use insomniac.Vm.Exception.{push_env}

-- the zeroed machine of `gc_alloc_type`
abbrev pub blank_vm : Vm
blank_vm = record {
  stack = [];
  depth = 0;
  empty = 0;
  vm_true = 0;
  vm_false = 0;
  symbol_table = 0;
  env = 0;
  exit_status = 0;
  objects = λ _. none;
  blocks = λ _. none;
  envs = λ _. none;
  tables = λ _. none;
  next = 1;
}

-- `import_table` serves the instructions that are given.
unfoldable pub vm_create : M (Unit {0})
unfolding vm_alloc allocate_table push_env
vm_create = do
  empty ← vm_alloc Object.empty
  modify (λ vm. record vm { empty = empty })
  vm_true ← vm_alloc (Object.bool true)
  modify (λ vm. record vm { vm_true = vm_true })
  vm_false ← vm_alloc (Object.bool false)
  modify (λ vm. record vm { vm_false = vm_false; stack = []; depth = 0; exit_status = 0 })
  symbols ← allocate_table []
  modify (λ vm. record vm { symbol_table = symbols })
  push_env

unfoldable pub vm_reset : M (Unit {0})
unfolding push_env
vm_reset = do modify (λ vm. record vm { stack = []; depth = 0; env = 0 }); push_env
