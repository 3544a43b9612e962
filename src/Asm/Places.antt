-- ===== src/Asm/Places.antt =====
-- The code of a source without errors of syntax: its length, and where its jumps lead.
use insomniac.Base.{
  ℕ, ◌+◌, ◌%◌, ◌<◌, ◌≡◌, sym, ◌∙◌, subst, Bool, ◌⊎◌, inl, inr, Option, some, List, [], ◌∷◌, ◌++◌,
  length, drop, arith, All,
}
use insomniac.Asm.Emit.{int_64}
use insomniac.Asm.Core.{JumpType, DebugState, Assembly}
use insomniac.Asm.Assemble.{start, asm_string, jump_target}
use insomniac.Asm.Jumps.{Leads}
use insomniac.Asm.Program.{
  HasUndefined, missing, later, Assembles, asm_string_lem, jump_target-small, jump_target-distance,
}
use insomniac.Asm.Items.{Item, scan, IsItem, total, place_of, jumps_onto}
use insomniac.Asm.Layout.{
  run_all, asm_tokens-run_all, scan-length, run_all-total, run_all-place_of, run_all-jumps_onto,
  or_else-none,
}
use insomniac.Gc.State.{Result, done, aborted}
use insomniac.Vm.Ops.Literal.{hash_get}
use insomniac.Vm.Word.{word}

-- The operand at the jump is the distance, modulo 2 ^ 64, from behind it to the place of its label.
pub record Reaches (code : List ℕ) (items : List Item) (jump : JumpType) : Type 0 where
  pub place : ℕ
  pub placed : place_of jump.label items 0 ≡ some place
  pub distance : ℕ
  pub small : distance < word
  pub lands : (jump.addr + 8 + distance) % word ≡ place % word
  pub rest : List ℕ
  pub operand : drop jump.addr code ≡ int_64 distance ++ rest

-- what the assembler makes of the items
abbrev pub IsAssembled : List Item → Result (List ℕ × Option (List DebugState)) → Type 0
IsAssembled items r =
    ((code : List ℕ) × (debug : Option (List DebugState)) × (r ≡ done (code, debug))
      × (length code ≡ total items)
      × All (Reaches code items) (jumps_onto items 0 []))
    ⊎ (HasUndefined (λ name. place_of name items 0) (jumps_onto items 0 []) × (r ≡ aborted))

HasUndefined-same :
    (f g : List ℕ → Option ℕ) (jumps : List JumpType)
    → ((name : List ℕ) → f name ≡ g name)
    → HasUndefined f jumps
    → HasUndefined g jumps
HasUndefined-same f g [] same lost = elim lost [ ]
HasUndefined-same f g (jump ∷ jumps) same (missing lost) = missing (sym (same jump.label) ∙ lost)
HasUndefined-same f g (jump ∷ jumps) same (later lost) =
    later (HasUndefined-same f g jumps same lost)

Leads-Reaches :
    (code : List ℕ) (items : List Item) (st : Assembly) (jumps : List JumpType)
    → ((name : List ℕ) → hash_get name st.labels ≡ place_of name items 0)
    → All (Leads code st.labels) jumps
    → All (Reaches code items) jumps
Leads-Reaches code items st [] same leads = tt
Leads-Reaches code items st (jump ∷ jumps) same (l, leads) = (
  record {
    place = l.label_addr;
    placed = sym (same jump.label) ∙ l.found;
    distance = jump_target l.label_addr jump.addr;
    small = jump_target-small l.label_addr jump.addr;
    lands = jump_target-distance l.label_addr jump.addr;
    rest = l.rest;
    operand = l.operand;
  },
  Leads-Reaches code items st jumps same leads,
)

-- For a source made of fixnums, characters, strings, symbols, labels, jumps and operations
-- without operands: if each jump has a label in the source, the assembler gives code whose
-- length is the sum of the widths of the items, in which the operand of each jump is the
-- distance, modulo 2 ^ 64, from behind it to the place of its label, the last one of that name,
-- counted in the widths of the items in front of it. If some jump has none, the assembler
-- aborts.
pub asm_string-places :
    (debug : Bool) (items : List Item)
    → All IsItem items
    → IsAssembled items (asm_string debug (scan items))
asm_string-places debug items ok =
    elim (subst (λ r. Assembles r (asm_string debug (scan items)))
      (asm_tokens-run_all items (length (scan items)) (start debug) ok (scan-length items))
      (asm_string_lem debug (scan items))) [
        | inl (code, run, sized, leads) ↦ inl (
          code,
          _,
          run,
          omega (arith, sized, bytes),
          subst (All (Reaches code items)) jumps
              (Leads-Reaches code items st st.jump_list same leads),
        )
        | inr (lost, run) ↦ inr (
          subst (HasUndefined (λ name. place_of name items 0)) jumps (
              HasUndefined-same (λ name. hash_get name st.labels) (λ name. place_of name items 0)
                st.jump_list same lost),
          run,
        )
      ]
  where
    st : Assembly
    st = run_all items (start debug)

    jumps : st.jump_list ≡ jumps_onto items 0 []
    jumps = unfold start in run_all-jumps_onto items (start debug)

    bytes : length st.buf ≡ total items
    bytes = unfold start in omega (arith, run_all-total items (start debug))

    same : (name : List ℕ) → hash_get name st.labels ≡ place_of name items 0
    same name =
        unfold start hash_get in
        (run_all-place_of name items (start debug) ∙ or_else-none (place_of name items 0))
