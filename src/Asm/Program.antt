-- ===== src/Asm/Program.antt =====
-- Assembled programs, and their jumps in the machine.
use insomniac.Base.{
  ℕ, ◌+◌, ◌%◌, ◌<◌, ◌≡◌, refl, ap, subst, ◌∙◌, Bool, ◌⊎◌, inl, inr, Option, none, some, List, [],
  ◌∷◌, length, drop, arith, All, Option-cases,
}
use insomniac.Asm.Emit.{int_64}
use insomniac.Asm.Core.{Scanner, JumpType, DebugState, Assembly}
use insomniac.Asm.Assemble.{
  asm_tokens, write_bytes, rewrite_jumps, jump_target, start, link, asm_string,
}
use insomniac.Asm.Jumps.{
  none_left, Leads, IsDefined, rewrite_jumps-found, rewrite_jumps-IsRewritten,
}
use insomniac.Asm.Loop.{IsLaidOut, Finished, asm_tokens-IsLaidOut}
use insomniac.Gc.State.{Result, done, aborted, undefined, unfinished, ◌>>=◌}
use insomniac.Vm.Effect.Jump.{behind, op_jmp_lem}
use insomniac.Vm.Ops.Jump.{op_jmp}
use insomniac.Vm.Ops.Literal.{hash_get}
use insomniac.Vm.State.{Bindings, Env, Vm}
use insomniac.Vm.Triple.{Returns}
use insomniac.Vm.Word.{word}

-- some jump has a label without a place
pub data HasUndefined (find : List ℕ → Option ℕ) : List JumpType → Type 0 where
  missing :
      {jump : JumpType} {jumps : List JumpType}
      → find jump.label ≡ none
      → HasUndefined find (jump ∷ jumps)
  later :
      {jump : JumpType} {jumps : List JumpType}
      → HasUndefined find jumps
      → HasUndefined find (jump ∷ jumps)

labels_decided :
    (labels : Bindings) (jumps : List JumpType)
    → All (IsDefined labels) jumps ⊎ HasUndefined (λ name. hash_get name labels) jumps
labels_decided labels [] = inl tt
labels_decided labels (jump ∷ jumps) = elim (Option-cases (hash_get jump.label labels)) [
  | inl lost ↦ inr (missing lost)
  | inr found ↦ elim (labels_decided labels jumps) [
    | inl defined ↦ inl (found, defined)
    | inr lost ↦ inr (later lost)
  ]
]

rewrite_jumps-HasUndefined :
    (code : List ℕ) (labels : Bindings) (jumps : List JumpType)
    → HasUndefined (λ name. hash_get name labels) jumps
    → rewrite_jumps code jumps labels ≡ aborted
unfolding rewrite_jumps
rewrite_jumps-HasUndefined code labels [] lost = elim lost [ ]
rewrite_jumps-HasUndefined code labels (jump ∷ jumps) (missing lost) = ground (arith, lost)
rewrite_jumps-HasUndefined code labels (jump ∷ jumps) (later lost) =
    elim (Option-cases (hash_get jump.label labels)) [
      | inl absent ↦ ground (arith, absent)
      | inr (t, found) ↦
          rewrite_jumps-found code labels jump jumps found
          ∙ rewrite_jumps-HasUndefined
              (write_bytes code jump.addr (int_64 (jump_target t jump.addr))) labels jumps lost
    ]

-- what the second half makes of the assembly `st`
abbrev pub Links : Assembly → Result (List ℕ × Option (List DebugState)) → Type 0
Links st r =
    ((code : List ℕ) × (r ≡ done (code, st.debug))
      × (length code ≡ length st.buf)
      × All (Leads code st.labels) st.jump_list)
    ⊎ (HasUndefined (λ name. hash_get name st.labels) st.jump_list × (r ≡ aborted))

-- the outcome `r` of `asm_string` by the outcome of the loop
abbrev pub Assembles : Result Assembly → Result (List ℕ × Option (List DebugState)) → Type 0
Assembles (done st) r = Links st r
Assembles aborted r = r ≡ aborted
Assembles undefined r = r ≡ undefined
Assembles unfinished r = ⊥

link-Links : (st : Assembly) → IsLaidOut st → Links st (link st)
unfolding link ◌>>=◌
link-Links st ok = elim (labels_decided st.labels st.jump_list) [
  | inl defined ↦
      let (code, run, rewritten) =
        rewrite_jumps-IsRewritten st.buf st.labels st.jump_list (length st.buf) ok (omega arith)
          defined in
      inl (code, ap (λ r. r >>= λ c. done (c, st.debug)) run, rewritten.sized, rewritten.leads)
  | inr lost ↦ inr (
    lost,
    ap (λ r. r >>= λ c. done (c, st.debug))
        (rewrite_jumps-HasUndefined st.buf st.labels st.jump_list lost),
  )
]

assembled : (r : Result Assembly) → Finished r → Assembles r (r >>= link)
unfolding ◌>>=◌
assembled (done st) ok = link-Links st ok
assembled aborted ok = refl
assembled undefined ok = refl
assembled unfinished ok = ok

-- The assembler ends on every sequence of tokens. Where the loop over the tokens returns,
-- either some jump has no label and the assembler aborts, or it gives code of the length of the
-- buffer with the debug states of the loop, in which the operand of each jump is the distance
-- from behind it to its label. Where the loop aborts or is undefined, so is the assembler.
pub asm_string_lem :
    (debug : Bool) (scanner : Scanner)
    → Assembles (asm_tokens (length scanner) scanner (start debug)) (asm_string debug scanner)
unfolding asm_string start
asm_string_lem debug scanner =
    assembled (asm_tokens (length scanner) scanner (start debug))
      (asm_tokens-IsLaidOut (length scanner) scanner (start debug) (omega arith) none_left)

-- the distance, added to the position behind the operand, is the label's address
pub jump_target-small : (label_addr addr : ℕ) → jump_target label_addr addr < word
unfolding jump_target
jump_target-small label_addr addr = omega arith

pub jump_target-distance :
    (label_addr addr : ℕ) → (addr + 8 + jump_target label_addr addr) % word ≡ label_addr % word
unfolding jump_target
jump_target-distance label_addr addr = omega arith

pub jump_target-lands :
    (label_addr addr : ℕ)
    → label_addr < word
    → ((addr + 8) % word + jump_target label_addr addr) % word ≡ label_addr
unfolding jump_target
jump_target-lands label_addr addr small = omega arith

-- Where the code of the current environment has, at its position, the operand that the
-- assembler writes for a jump, and the address of the jump's label is below 2 ^ 64, `op_jmp`
-- keeps the environment and moves its position to the label.
pub op_jmp-Leads :
    (e : Env) (vm : Vm) (labels : Bindings) (jump : JumpType)
    → vm.envs vm.env ≡ some e
    → e.ip ≡ jump.addr
    → (leads : Leads e.code_ref labels jump) → leads.label_addr < word
    → Returns
        (λ _ vm'.
          (vm'.env ≡ vm.env) × (vm'.envs vm.env ≡ some (record e { ip = leads.label_addr })))
        (op_jmp vm)
op_jmp-Leads e vm labels jump current here leads small =
    subst
      (λ ip.
        Returns (λ _ vm'. (vm'.env ≡ vm.env) × (vm'.envs vm.env ≡ some (record e { ip = ip })))
          (op_jmp vm))
      lands
      (op_jmp_lem e vm (jump_target leads.label_addr jump.addr) leads.rest current
        (jump_target-small leads.label_addr jump.addr)
        (ap (λ a. drop a e.code_ref) here ∙ leads.operand))
  where
    lands : (behind e + jump_target leads.label_addr jump.addr) % word ≡ leads.label_addr
    lands =
        ap (λ a. ((a + 8) % word + jump_target leads.label_addr jump.addr) % word) here
        ∙ jump_target-lands leads.label_addr jump.addr small
