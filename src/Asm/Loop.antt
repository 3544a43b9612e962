-- ===== src/Asm/Loop.antt =====
-- The loop of the assembler: it ends, and the operands of its jumps stand apart.
use insomniac.Base.{
  ℕ, zero, suc, ◌≤◌, Bool, true, false, Option, none, some, List, [], ◌∷◌, ◌++◌, length, arith,
  length-append, if◌then◌else◌, ◌==◌, ltb,
}
use insomniac.Asm.Emit.{int_64}
use insomniac.Asm.Core.{
  lit_fixnum_token, lit_char_token, lit_string_token, lit_symbol_token, op_max_ins, label_token,
  string_start_token, string_end_token, symbol_start_token, directive_file, Lexeme, Scanner,
  JumpType, DebugState, Assembly, emit, asm_lit_fixnum, asm_lit_char, expect, asm_lit_string,
  emit_lit_string, asm_label, asm_jump,
}
use insomniac.Asm.Assemble.{
  get_debug_num, add_debug_place, add_debug_named, add_debug_file, asm_directive, is_jump,
  asm_token, asm_tokens,
}
use insomniac.Asm.Jumps.{IsSpaced, none_left, before}
use insomniac.Gc.State.{Result, done, aborted, undefined, unfinished, ◌>>=◌}

-- the value of an outcome satisfies `P`, with at most `n` tokens left; no outcome is without end
abbrev pub Returned : {B : Type 0} → (B → Type 0) → ℕ → Result (B × Scanner) → Type 0
Returned P n (done (b, more)) = P b × (length more ≤ n)
Returned P n aborted = Unit {0}
Returned P n undefined = Unit {0}
Returned P n unfinished = ⊥

module _ {B C : Type 0} (P : B → Type 0) (Q : C → Type 0) where
  Returned-bind :
      (m n : ℕ) (r : Result (B × Scanner)) (f : B × Scanner → Result (C × Scanner))
      → Returned P m r
      → ((b : B) (more : Scanner) → P b → length more ≤ m → Returned Q n (f (b, more)))
      → Returned Q n (r >>= f)
  unfolding ◌>>=◌
  Returned-bind m n (done (b, more)) f (p, h) next = next b more p h
  Returned-bind m n aborted f p next = tt
  Returned-bind m n undefined f p next = tt
  Returned-bind m n unfinished f p next = elim p [ ]

module _ {B : Type 0} (P : B → Type 0) where
  Returned-later : (m n : ℕ) (r : Result (B × Scanner)) → m ≤ n → Returned P m r → Returned P n r
  Returned-later m n (done (b, more)) h (p, k) = (p, omega arith)
  Returned-later m n aborted h p = tt
  Returned-later m n undefined h p = tt
  Returned-later m n unfinished h p = p

module _ {B : Type 0} (P : B → Type 0) (n : ℕ) where
  Returned-if :
      (b : Bool) (r s : Result (B × Scanner))
      → Returned P n r
      → Returned P n s
      → Returned P n (if b then r else s)
  Returned-if true r s p q = p
  Returned-if false r s p q = q

abbrev pub Anything : {B : Type 0} → B → Type 0
Anything b = Unit {0}

expect-Returned :
    (token : ℕ) (scanner : Scanner) → Returned Anything (length scanner) (expect token scanner)
unfolding expect
expect-Returned token [] = tt
expect-Returned token (l ∷ rest) =
    Returned-if Anything (suc (length rest)) (l.token == token) (done (l.text, rest)) aborted
      (tt, omega arith) tt

get_debug_num-Returned :
    (scanner : Scanner) → Returned Anything (length scanner) (get_debug_num scanner)
unfolding get_debug_num
get_debug_num-Returned scanner =
    Returned-bind Anything Anything (length scanner) (length scanner) _ _
      (expect-Returned lit_fixnum_token scanner) (λ text more p h. (tt, h))

add_debug_place-Returned :
    (file : List ℕ) (scanner : Scanner) (debug : List DebugState) (addr : ℕ)
    → Returned Anything (length scanner) (add_debug_place file scanner debug addr)
unfolding add_debug_place
add_debug_place-Returned file scanner debug addr =
    Returned-bind Anything Anything (length scanner) (length scanner) _ _
      (get_debug_num-Returned scanner)
      (λ line more p h.
        Returned-bind Anything Anything (length more) (length scanner) _ _
          (get_debug_num-Returned more) (λ column rest q k. (tt, omega arith)))

add_debug_named-Returned :
    (scanner : Scanner) (debug : List DebugState) (addr : ℕ)
    → Returned Anything (length scanner) (add_debug_named scanner debug addr)
unfolding add_debug_named
add_debug_named-Returned [] debug addr = tt
add_debug_named-Returned (l ∷ rest) debug addr =
    Returned-if Anything (suc (length rest)) (l.token == lit_string_token) _ _
      (Returned-bind Anything Anything (length rest) (suc (length rest)) _ _
        (expect-Returned string_end_token rest)
        (λ _ more q k.
          Returned-later Anything (length more) (suc (length rest)) _ (omega arith)
            (add_debug_place-Returned l.text more debug addr)))
      (Returned-if Anything (suc (length rest)) (l.token == string_end_token) undefined aborted tt
        tt)

add_debug_file-Returned :
    (scanner : Scanner) (debug : List DebugState) (addr : ℕ)
    → Returned Anything (length scanner) (add_debug_file scanner debug addr)
unfolding add_debug_file
add_debug_file-Returned scanner debug addr =
    Returned-bind Anything Anything (length scanner) (length scanner) _ _
      (expect-Returned string_start_token scanner)
      (λ text body p h.
        Returned-later Anything (length body) (length scanner) _ h
          (add_debug_named-Returned body debug addr))

-- The operands of the jumps stand apart in the code so far.
abbrev pub IsLaidOut : Assembly → Type 0
IsLaidOut st = IsSpaced (length st.buf) st.jump_list

IsSpaced-later : {a b : ℕ} {jumps : List JumpType} → a ≤ b → IsSpaced a jumps → IsSpaced b jumps
IsSpaced-later h none_left = none_left
IsSpaced-later h (before apart rest) = before (omega arith) rest

emit-IsLaidOut : (bytes : List ℕ) (st : Assembly) → IsLaidOut st → IsLaidOut (emit bytes st)
unfolding emit
emit-IsLaidOut bytes st ok =
    let longer = length-append st.buf bytes in IsSpaced-later (omega arith) ok

-- the end of the loop: a syntax error, or an assembly that is laid out
abbrev pub Finished : Result Assembly → Type 0
Finished (done st) = IsLaidOut st
Finished aborted = Unit {0}
Finished undefined = Unit {0}
Finished unfinished = ⊥

Finished-bind :
    (m : ℕ) (r : Result (Assembly × Scanner)) (f : Assembly × Scanner → Result Assembly)
    → Returned IsLaidOut m r
    → ((st : Assembly) (more : Scanner) → IsLaidOut st → length more ≤ m → Finished (f (st, more)))
    → Finished (r >>= f)
unfolding ◌>>=◌
Finished-bind m (done (st, more)) f (p, h) next = next st more p h
Finished-bind m aborted f p next = tt
Finished-bind m undefined f p next = tt
Finished-bind m unfinished f p next = elim p [ ]

asm_lit_string-Returned :
    (scanner : Scanner) (st : Assembly)
    → IsLaidOut st
    → Returned IsLaidOut (length scanner) (asm_lit_string scanner st)
unfolding asm_lit_string emit_lit_string
asm_lit_string-Returned [] st ok = tt
asm_lit_string-Returned (l ∷ rest) st ok =
    Returned-if IsLaidOut (suc (length rest)) (l.token == lit_string_token) _ _
      (Returned-bind Anything IsLaidOut (length rest) (suc (length rest)) _ _
        (expect-Returned string_end_token rest)
        (λ _ more q k. (emit-IsLaidOut (int_64 (length l.text) ++ l.text) st ok, omega arith)))
      (Returned-if IsLaidOut (suc (length rest)) (l.token == string_end_token) _ _
        (emit-IsLaidOut (int_64 0 ++ []) st ok, omega arith) tt)

asm_jump-Returned :
    (scanner : Scanner) (st : Assembly)
    → IsLaidOut st
    → Returned IsLaidOut (length scanner) (asm_jump scanner st)
unfolding asm_jump emit
asm_jump-Returned scanner st ok =
    Returned-bind Anything IsLaidOut (length scanner) (length scanner) _ _
      (expect-Returned label_token scanner)
      (λ label more q k.
        let longer = length-append st.buf (int_64 0) in (before (omega arith) ok, k))

asm_directive-Returned :
    (debug : Option (List DebugState)) (rest : Scanner) (st : Assembly)
    → IsLaidOut st
    → Returned IsLaidOut (length rest) (asm_directive debug rest st)
unfolding asm_directive
asm_directive-Returned none rest st ok = (ok, omega arith)
asm_directive-Returned (some debug) rest st ok =
    Returned-bind Anything IsLaidOut (length rest) (length rest) _ _
      (add_debug_file-Returned rest debug (length st.buf)) (λ states more p h. (ok, h))

asm_token-Returned :
    (l : Lexeme) (rest : Scanner) (st : Assembly)
    → IsLaidOut st
    → Returned IsLaidOut (length rest) (asm_token l rest st)
unfolding asm_token asm_lit_fixnum asm_lit_char asm_label
asm_token-Returned l rest st ok =
    Returned-if IsLaidOut (length rest) (l.token == lit_fixnum_token) _ _
      (emit-IsLaidOut _ st ok, omega arith)
      (Returned-if IsLaidOut (length rest) (l.token == lit_char_token) _ _
        (emit-IsLaidOut _ st ok, omega arith)
        (Returned-if IsLaidOut (length rest) (l.token == string_start_token) _ _
          (asm_lit_string-Returned rest _ (emit-IsLaidOut (lit_string_token ∷ []) st ok))
          (Returned-if IsLaidOut (length rest) (l.token == symbol_start_token) _ _
            (asm_lit_string-Returned rest _ (emit-IsLaidOut (lit_symbol_token ∷ []) st ok))
            (Returned-if IsLaidOut (length rest) (is_jump l.token) _ _
              (asm_jump-Returned rest _ (emit-IsLaidOut (l.token ∷ []) st ok))
              (Returned-if IsLaidOut (length rest) (l.token == label_token) _ _ (ok, omega arith)
                (Returned-if IsLaidOut (length rest) (l.token == directive_file) _ _
                  (asm_directive-Returned st.debug rest st ok)
                  (Returned-if IsLaidOut (length rest) (ltb l.token op_max_ins) _ _
                    (emit-IsLaidOut (l.token ∷ []) st ok, omega arith) (ok, omega arith))))))))

pub asm_tokens-IsLaidOut :
    (fuel : ℕ) (scanner : Scanner) (st : Assembly)
    → length scanner ≤ fuel
    → IsLaidOut st
    → Finished (asm_tokens fuel scanner st)
unfolding asm_tokens
asm_tokens-IsLaidOut fuel [] st h ok = ok
asm_tokens-IsLaidOut zero (l ∷ rest) st h ok = absurd (omega arith)
asm_tokens-IsLaidOut (suc fuel) (l ∷ rest) st h ok =
    Finished-bind (length rest) _ _ (asm_token-Returned l rest st ok)
      (λ next more p k. asm_tokens-IsLaidOut fuel more next (omega arith) p)
