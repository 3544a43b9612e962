-- ===== src/Asm/Layout.antt =====
-- What the loop of the assembler makes of the items.
use insomniac.Base.{
  ℕ, zero, suc, ◌+◌, ◌≤◌, ◌≡◌, refl, sym, ap, ◌∙◌, Bool, true, false, Option, none, some, List, [],
  ◌∷◌, ◌++◌, length, arith, All, length-append, if◌then◌else◌,
}
use insomniac.Asm.Emit.{int_64}
use insomniac.Asm.Core.{
  lit_string_token, lit_symbol_token, Scanner, Assembly, expect, emit, emit_lit_string,
  asm_lit_fixnum, asm_lit_char, asm_lit_string, asm_label, asm_jump,
}
use insomniac.Asm.Assemble.{asm_token, asm_tokens, is_jump}
use insomniac.Gc.State.{done, ◌>>=◌}
use insomniac.Vm.Ops.Literal.{hash_get, hash_set}
use insomniac.Vm.Table.{hash_get-hash_set}
use insomniac.Vm.Text.{same_text}
use insomniac.Asm.Items.{
  fixnum, char, string, symbol, label, jump, op, jmp, jnf, call, proc, continue, number, Item,
  tokens, scan, IsItem, width, total, or_else, place_of, jumps_onto,
}

-- what the item does to the variables of the assembler
run : Item → Assembly → Assembly
run (fixnum text) st = asm_lit_fixnum text st
run (char text) st = asm_lit_char text st
run (string text) st = emit_lit_string text (emit (lit_string_token ∷ []) st)
run (symbol text) st = emit_lit_string text (emit (lit_symbol_token ∷ []) st)
run (label name) st = asm_label name st
run (jump type name) st = emit (int_64 0) (record st {
  buf = st.buf ++ (number type ∷ []);
  jump_list =
      (record { label = name; addr = length (st.buf ++ (number type ∷ [])) }) ∷ st.jump_list;
})
run (op code) st = emit (code ∷ []) st

asm_token-run :
    (item : Item) (rest : Scanner) (st : Assembly) (fuel : ℕ)
    → IsItem item
    → asm_tokens (suc fuel) (tokens item ++ rest) st ≡ asm_tokens fuel rest (run item st)
unfolding run asm_tokens asm_token asm_lit_string asm_jump expect emit ◌>>=◌ is_jump
asm_token-run (fixnum text) rest st fuel ok = refl
asm_token-run (char text) rest st fuel ok = refl
asm_token-run (string []) rest st fuel ok = refl
asm_token-run (string (c ∷ cs)) rest st fuel ok = refl
asm_token-run (symbol []) rest st fuel ok = refl
asm_token-run (symbol (c ∷ cs)) rest st fuel ok = refl
asm_token-run (label name) rest st fuel ok = refl
asm_token-run (jump jmp name) rest st fuel ok = refl
asm_token-run (jump jnf name) rest st fuel ok = refl
asm_token-run (jump call name) rest st fuel ok = refl
asm_token-run (jump proc name) rest st fuel ok = refl
asm_token-run (jump continue name) rest st fuel ok = refl
asm_token-run (op code) rest st fuel ok = ground (arith, ok)

pub run_all : List Item → Assembly → Assembly
run_all [] st = st
run_all (item ∷ items) st = run_all items (run item st)

pub asm_tokens-run_all :
    (items : List Item) (fuel : ℕ) (st : Assembly)
    → All IsItem items
    → length items ≤ fuel
    → asm_tokens fuel (scan items) st ≡ done (run_all items st)
unfolding run_all asm_tokens
asm_tokens-run_all [] fuel st ok h = refl
asm_tokens-run_all (item ∷ items) zero st ok h = absurd (omega arith)
asm_tokens-run_all (item ∷ items) (suc fuel) st (ok, more) h =
    asm_token-run item (scan items) st fuel ok
    ∙ asm_tokens-run_all items fuel (run item st) more (omega arith)

tokens-length : (item : Item) (rest : Scanner) → suc (length rest) ≤ length (tokens item ++ rest)
tokens-length (fixnum text) rest = omega arith
tokens-length (char text) rest = omega arith
tokens-length (string []) rest = omega arith
tokens-length (string (c ∷ cs)) rest = omega arith
tokens-length (symbol []) rest = omega arith
tokens-length (symbol (c ∷ cs)) rest = omega arith
tokens-length (label name) rest = omega arith
tokens-length (jump type name) rest = omega arith
tokens-length (op code) rest = omega arith

pub scan-length : (items : List Item) → length items ≤ length (scan items)
scan-length [] = omega arith
scan-length (item ∷ items) = omega (arith, scan-length items, tokens-length item (scan items))

run-width : (item : Item) (st : Assembly) → length (run item st).buf ≡ length st.buf + width item
unfolding run emit emit_lit_string asm_lit_fixnum asm_lit_char asm_label
run-width (fixnum text) st = length-append st.buf _
run-width (char text) st = length-append st.buf _
run-width (string text) st = omega (
  arith,
  length-append (st.buf ++ (lit_string_token ∷ [])) (int_64 (length text) ++ text),
  length-append st.buf (lit_string_token ∷ []),
)
run-width (symbol text) st = omega (
  arith,
  length-append (st.buf ++ (lit_symbol_token ∷ [])) (int_64 (length text) ++ text),
  length-append st.buf (lit_symbol_token ∷ []),
)
run-width (label name) st = omega arith
run-width (jump type name) st = omega (
  arith,
  length-append (st.buf ++ (number type ∷ [])) (int_64 0),
  length-append st.buf (number type ∷ []),
)
run-width (op code) st = length-append st.buf _

pub run_all-total :
    (items : List Item) (st : Assembly)
    → length (run_all items st).buf ≡ length st.buf + total items
unfolding run_all
run_all-total [] st = omega arith
run_all-total (item ∷ items) st =
    omega (arith, run_all-total items (run item st), run-width item st)

or_else_assoc : (a b c : Option ℕ) → or_else (or_else a b) c ≡ or_else a (or_else b c)
or_else_assoc none b c = refl
or_else_assoc (some a) b c = refl

or_else-if :
    (b : Bool) (a : ℕ) (c : Option ℕ)
    → (if b then some a else c) ≡ or_else (if b then some a else none) c
or_else-if true a c = refl
or_else-if false a c = refl

pub or_else-none : (a : Option ℕ) → or_else a none ≡ a
or_else-none none = refl
or_else-none (some a) = refl

-- the table of the labels
pub run_all-place_of :
    (name : List ℕ) (items : List Item) (st : Assembly)
    → hash_get name (run_all items st).labels
      ≡ or_else (place_of name items (length st.buf)) (hash_get name st.labels)
unfolding run_all
run_all-place_of name [] st = refl
run_all-place_of name (item ∷ items) st =
    run_all-place_of name items (run item st)
    ∙ (ap (λ at. or_else (place_of name items at) (hash_get name (run item st).labels))
          (run-width item st)
        ∙ step item)
  where
    step :
        (item : Item)
        → or_else
            (place_of name items (length st.buf + width item))
            (hash_get name (run item st).labels)
          ≡ or_else (place_of name (item ∷ items) (length st.buf)) (hash_get name st.labels)
    step (fixnum text) = unfold run asm_lit_fixnum emit in refl
    step (char text) = unfold run asm_lit_char emit in refl
    step (string text) = unfold run emit_lit_string emit in refl
    step (symbol text) = unfold run emit_lit_string emit in refl
    step (label other) =
        unfold run asm_label in
        (ap
            (λ at.
              or_else (place_of name items at)
                (hash_get name (hash_set other (length st.buf) st.labels)))
            (omega arith)
          ∙ (ap (or_else (place_of name items (length st.buf))) (
                hash_get-hash_set name other (length st.buf) st.labels
                ∙ or_else-if (same_text name other) (length st.buf) (hash_get name st.labels))
              ∙ sym (
                  or_else_assoc (place_of name items (length st.buf))
                    (if same_text name other then some (length st.buf) else none)
                    (hash_get name st.labels))))
    step (jump type other) = unfold run emit in refl
    step (op code) = unfold run emit in refl

pub run_all-jumps_onto :
    (items : List Item) (st : Assembly)
    → (run_all items st).jump_list ≡ jumps_onto items (length st.buf) st.jump_list
unfolding run_all
run_all-jumps_onto [] st = refl
run_all-jumps_onto (item ∷ items) st =
    run_all-jumps_onto items (run item st)
    ∙ (ap (λ at. jumps_onto items at (run item st).jump_list) (run-width item st) ∙ step item)
  where
    step :
        (item : Item)
        → jumps_onto items (length st.buf + width item) (run item st).jump_list
          ≡ jumps_onto (item ∷ items) (length st.buf) st.jump_list
    step (fixnum text) = unfold run asm_lit_fixnum emit in refl
    step (char text) = unfold run asm_lit_char emit in refl
    step (string text) = unfold run emit_lit_string emit in refl
    step (symbol text) = unfold run emit_lit_string emit in refl
    step (label other) = unfold run asm_label in refl
    step (jump type other) =
        unfold run emit in
        ap
          (λ at.
            jumps_onto items (length st.buf + 9)
              ((record { label = other; addr = at }) ∷ st.jump_list))
          (length-append st.buf (number type ∷ []))
    step (op code) = unfold run emit in refl
