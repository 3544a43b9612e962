-- ===== src/Asm/Jumps.antt =====
-- The jumps of assembled code lead to their labels.
use insomniac.Base.{
  ℕ, zero, suc, ◌+◌, ◌≤◌, ◌≡◌, refl, ap, ◌∙◌, some, List, [], ◌∷◌, ◌++◌, length, set, drop, arith,
  length-set, All,
}
use insomniac.Asm.Emit.{int_64}
use insomniac.Asm.Core.{JumpType}
use insomniac.Asm.Assemble.{write_bytes, jump_target, rewrite_jumps}
use insomniac.Gc.State.{done}
use insomniac.Vm.Ops.Literal.{hash_get}
use insomniac.Vm.State.{Bindings}

length-write_bytes :
    (code : List ℕ) (addr : ℕ) (bytes : List ℕ) → length (write_bytes code addr bytes) ≡ length code
unfolding write_bytes
length-write_bytes code addr [] = refl
length-write_bytes code addr (b ∷ bs) =
    length-write_bytes (set code addr b) (suc addr) bs ∙ length-set code addr b

write_bytes-nil : (addr : ℕ) (bytes : List ℕ) → write_bytes [] addr bytes ≡ []
unfolding write_bytes
write_bytes-nil addr [] = refl
write_bytes-nil addr (b ∷ bs) = write_bytes-nil (suc addr) bs

write_bytes-cons :
    (x : ℕ) (code : List ℕ) (addr : ℕ) (bytes : List ℕ)
    → write_bytes (x ∷ code) (suc addr) bytes ≡ x ∷ write_bytes code addr bytes
unfolding write_bytes
write_bytes-cons x code addr [] = refl
write_bytes-cons x code addr (b ∷ bs) = write_bytes-cons x (set code addr b) (suc addr) bs

write_bytes-start :
    (code bytes : List ℕ)
    → length bytes ≤ length code
    → write_bytes code 0 bytes ≡ bytes ++ drop (length bytes) code
unfolding write_bytes drop
write_bytes-start code [] h = refl
write_bytes-start [] (b ∷ bs) h = absurd (omega arith)
write_bytes-start (x ∷ code) (b ∷ bs) h =
    write_bytes-cons b code 0 bs ∙ ap (λ c. b ∷ c) (write_bytes-start code bs (omega arith))

-- what stands at the written position
drop-write_bytes :
    (code : List ℕ) (addr : ℕ) (bytes : List ℕ)
    → addr + length bytes ≤ length code
    → drop addr (write_bytes code addr bytes) ≡ bytes ++ drop (length bytes) (drop addr code)
unfolding write_bytes drop
drop-write_bytes code zero bytes h = write_bytes-start code bytes (omega arith)
drop-write_bytes [] (suc addr) bytes h = absurd (omega arith)
drop-write_bytes (x ∷ code) (suc addr) bytes h =
    ap (drop (suc addr)) (write_bytes-cons x code addr bytes)
    ∙ drop-write_bytes code addr bytes (omega arith)

-- what stands behind it
drop-write_bytes_behind :
    (code : List ℕ) (addr at : ℕ) (bytes : List ℕ)
    → addr + length bytes ≤ at
    → drop at (write_bytes code addr bytes) ≡ drop at code
unfolding write_bytes drop
drop-write_bytes_behind [] addr at bytes h = ap (drop at) (write_bytes-nil addr bytes)
drop-write_bytes_behind (x ∷ code) zero at [] h = refl
drop-write_bytes_behind (x ∷ code) zero zero (b ∷ bs) h = absurd (omega arith)
drop-write_bytes_behind (x ∷ code) zero (suc at) (b ∷ bs) h =
    ap (drop (suc at)) (write_bytes-cons b code 0 bs)
    ∙ drop-write_bytes_behind code 0 at bs (omega arith)
drop-write_bytes_behind (x ∷ code) (suc addr) zero bytes h = absurd (omega arith)
drop-write_bytes_behind (x ∷ code) (suc addr) (suc at) bytes h =
    ap (drop (suc at)) (write_bytes-cons x code addr bytes)
    ∙ drop-write_bytes_behind code addr at bytes (omega arith)

-- The operands stand apart, each with its eight bytes before `bound`; the last jump comes first.
pub data IsSpaced : ℕ → List JumpType → Type 0 where
  none_left : {bound : ℕ} → IsSpaced bound []
  before :
      {bound : ℕ} {jump : JumpType} {jumps : List JumpType}
      → jump.addr + 8 ≤ bound
      → IsSpaced jump.addr jumps
      → IsSpaced bound (jump ∷ jumps)

-- the operand at the jump is the distance from behind it to its label
pub record Leads (code : List ℕ) (labels : Bindings) (jump : JumpType) : Type 0 where
  pub label_addr : ℕ
  pub found : hash_get jump.label labels ≡ some label_addr
  pub rest : List ℕ
  pub operand : drop jump.addr code ≡ int_64 (jump_target label_addr jump.addr) ++ rest

-- what rewriting leaves: the code from `bound` on as it was, and jumps to their labels
pub record IsRewritten (bound : ℕ) (code code' : List ℕ) (labels : Bindings) (jumps : List JumpType)
    : Type 0 where
  pub sized : length code' ≡ length code
  pub behind : (at : ℕ) → bound ≤ at → drop at code' ≡ drop at code
  pub leads : All (Leads code' labels) jumps

abbrev pub IsDefined : Bindings → JumpType → Type 0
IsDefined labels jump = (t : ℕ) × (hash_get jump.label labels ≡ some t)

pub rewrite_jumps-found :
    {label_addr : ℕ} (code : List ℕ) (labels : Bindings) (jump : JumpType) (jumps : List JumpType)
    → hash_get jump.label labels ≡ some label_addr
    → rewrite_jumps code (jump ∷ jumps) labels
      ≡ rewrite_jumps
          (write_bytes code jump.addr (int_64 (jump_target label_addr jump.addr)))
          jumps
          labels
unfolding rewrite_jumps
rewrite_jumps-found code labels jump jumps found = ground (arith, found)

pub rewrite_jumps-IsRewritten :
    (code : List ℕ) (labels : Bindings) (jumps : List JumpType) (bound : ℕ)
    → IsSpaced bound jumps
    → bound ≤ length code
    → All (IsDefined labels) jumps
    → (code' : List ℕ) × (rewrite_jumps code jumps labels ≡ done code')
      × IsRewritten bound code code' labels jumps
unfolding rewrite_jumps
rewrite_jumps-IsRewritten code labels [] bound spaced h defined =
    (code, refl, record { sized = refl; behind = λ at le. refl; leads = tt })
rewrite_jumps-IsRewritten code labels (jump ∷ jumps) bound (before apart spaced) h
      ((t, found), defined) =
    let bytes = int_64 (jump_target t jump.addr) in
    let written = write_bytes code jump.addr bytes in
    let same_size = length-write_bytes code jump.addr bytes in
    let (code', run, ok) =
      rewrite_jumps-IsRewritten written labels jumps jump.addr spaced (omega arith) defined in
    (
      code',
      rewrite_jumps-found code labels jump jumps found ∙ run,
      record {
        sized = ok.sized ∙ same_size;
        behind = λ at le.
            ok.behind at (omega arith)
            ∙ drop-write_bytes_behind code jump.addr at bytes (omega arith);
        leads = (
          record {
            label_addr = t;
            found = found;
            rest = drop 8 (drop jump.addr code);
            operand =
                ok.behind jump.addr (omega arith)
                ∙ drop-write_bytes code jump.addr bytes (omega arith);
          },
          ok.leads,
        );
      },
    )
