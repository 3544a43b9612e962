-- ===== src/Examples/Asm.antt =====
-- The assembler, at a concrete source.
use insomniac.Base.{List, ◌≡◌, refl, false, none, some, [], ◌++◌, ◌∷◌, arith, drop}
use insomniac.Asm.Emit.{int_64}
use insomniac.Asm.Core.{JumpType, jmp_token}
use insomniac.Asm.Assemble.{is_jump, asm_string, jump_target}
use insomniac.Asm.Jumps.{Leads}
use insomniac.Asm.Program.{op_jmp-Leads}
use insomniac.Asm.Items.{Item, jump, op, label, jmp, IsItem, scan}
use insomniac.Asm.Places.{IsAssembled, asm_string-places}
use insomniac.Gc.State.{done}
use insomniac.Vm.Ops.Jump
use insomniac.Vm.Ops.Literal.{hash_get}
use insomniac.Vm.State.{Bindings}
use insomniac.Vm.Text.{same_text}
use insomniac.Vm.Triple.{Returns}
use insomniac.Examples.Machine.{x_name, machine, program, inner_env}

-- jmp x nop x: nop
abbrev source : List Item
source = jump jmp x_name ∷ op 0 ∷ label x_name ∷ op 0 ∷ []

asm_string-places_example : IsAssembled source (asm_string false (scan source))
asm_string-places_example =
    asm_string-places false source (tt, (IsItem-nop, (tt, (IsItem-nop, tt))))
  where
    IsItem-nop : IsItem (op 0)
    IsItem-nop = unfold is_jump in refl

source_code : asm_string false (scan source) ≡ done ((jmp_token ∷ int_64 1) ++ 0 ∷ 0 ∷ [], none)
unfolding asm_string
source_code = refl

-- the operand of the program in the machine leads to its last operation
abbrev labels : Bindings
labels = (x_name, 11) ∷ []

abbrev taken : JumpType
taken = record { label = x_name; addr = 0 }

unfoldable program-Leads : Leads program labels taken
unfolding hash_get same_text jump_target drop
program-Leads = record { label_addr = 11; found = refl; rest = 0 ∷ 0 ∷ 0 ∷ 0 ∷ []; operand = refl }

op_jmp-Leads_example :
    Returns
      (λ _ vm. (vm.env ≡ 31) × (vm.envs 31 ≡ some (record inner_env { ip = 11 })))
      (Jump.op_jmp machine)
unfolding program-Leads
op_jmp-Leads_example =
    op_jmp-Leads inner_env machine labels taken refl refl program-Leads (omega arith)
