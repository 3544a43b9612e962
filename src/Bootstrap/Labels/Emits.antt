-- ===== src/Bootstrap/Labels/Emits.antt =====
-- Which labels an emission defines, and where its jumps lead: one rule for each part.
use insomniac.Base.{
  ℕ, suc, ◌+◌, ◌<◌, ◌≤◌, ◌≡◌, ◌⊎◌, refl, ap, ◌∙◌, inl, inr, Bool, true, false, ◌&&◌, some, List, [],
  ◌∷◌, ◌++◌, if◌then◌else◌, ◌==◌, ltb, leb, arith,
}
use mathlib.Core.List.{Memᴰ}
use insomniac.Bootstrap.Stream.{Text, Position}
use insomniac.Bootstrap.Shape.{IsPlain}
use insomniac.Bootstrap.Output.{
  Jump, Line, op_line, string_line, comment_line, label_line, jump_line, debug_line, Emission,
  silent, line, after_lines, and_then, ◌>>◌, gen_label, emit_label, emit_jump_label, emit_op,
  emit_comment, emit_string, emit_debug,
}

abbrev pub one_if : Bool → ℕ
one_if b = if b then 1 else 0

-- how often the label is defined
unfoldable pub defined : ℕ → List Line → ℕ
defined k [] = 0
defined k (label_line l ∷ lines) = one_if (l == k) + defined k lines
defined k (_ ∷ lines) = defined k lines

-- how often it stands in the list
abbrev pub listed : ℕ → List ℕ → ℕ
listed k [] = 0
listed k (l ∷ list) = one_if (l == k) + listed k list

-- 1 for the labels from `n` up to the one before `n'`
abbrev pub between : ℕ → ℕ → ℕ → ℕ
between n n' k = one_if (leb n k && ltb k n')

-- the target of each jump, and no jump and no label in the text of the instructions
abbrev pub AllLines : (ℕ → Type 0) → List Line → Type 0
AllLines P [] = Unit
AllLines P (jump_line type k ∷ lines) = P k × AllLines P lines
AllLines P (op_line str ∷ lines) = IsPlain str × AllLines P lines
AllLines P (_ ∷ lines) = AllLines P lines

abbrev pub IsTarget : ℕ → ℕ → List ℕ → ℕ → Type 0
IsTarget n n' around k = ((n ≤ k) × (k < n')) ⊎ Memᴰ k around

-- Each label from `n` on is defined once, and those of the list; the jumps lead to these labels or
-- to those around.
abbrev pub IsClosed : List ℕ → List ℕ → ℕ → List Line × ℕ → Type 0
IsClosed list around n (lines, n') =
    (n ≤ n')
    × ((k : ℕ) → defined k lines ≡ between n n' k + listed k list)
    × AllLines (IsTarget n n' around) lines

-- The emission returns, with lines of this kind.
pub record Emits (list around : List ℕ) (e : Emission) : Type 0 where
  pub returns :
      (n : ℕ) → (result : List Line × ℕ) × (e n ≡ some result) × IsClosed list around n result

pub AllLines-map :
    (P Q : ℕ → Type 0) (lines : List Line)
    → ((k : ℕ) → P k → Q k)
    → AllLines P lines
    → AllLines Q lines
AllLines-map P Q [] f all = tt
AllLines-map P Q (op_line s ∷ lines) f (p, all) = (p, AllLines-map P Q lines f all)
AllLines-map P Q (string_line s ∷ lines) f all = AllLines-map P Q lines f all
AllLines-map P Q (comment_line s ∷ lines) f all = AllLines-map P Q lines f all
AllLines-map P Q (label_line k ∷ lines) f all = AllLines-map P Q lines f all
AllLines-map P Q (debug_line p ∷ lines) f all = AllLines-map P Q lines f all
AllLines-map P Q (jump_line type k ∷ lines) f (p, all) = (f k p, AllLines-map P Q lines f all)

AllLines-append :
    (P : ℕ → Type 0) (first second : List Line)
    → AllLines P first
    → AllLines P second
    → AllLines P (first ++ second)
AllLines-append P [] second a b = b
AllLines-append P (op_line s ∷ lines) second (p, a) b = (p, AllLines-append P lines second a b)
AllLines-append P (string_line s ∷ lines) second a b = AllLines-append P lines second a b
AllLines-append P (comment_line s ∷ lines) second a b = AllLines-append P lines second a b
AllLines-append P (label_line k ∷ lines) second a b = AllLines-append P lines second a b
AllLines-append P (debug_line p ∷ lines) second a b = AllLines-append P lines second a b
AllLines-append P (jump_line type k ∷ lines) second (p, a) b =
    (p, AllLines-append P lines second a b)

defined-append :
    (k : ℕ) (first second : List Line)
    → defined k (first ++ second) ≡ defined k first + defined k second
unfolding defined
defined-append k [] second = omega arith
defined-append k (op_line s ∷ lines) second = defined-append k lines second
defined-append k (string_line s ∷ lines) second = defined-append k lines second
defined-append k (comment_line s ∷ lines) second = defined-append k lines second
defined-append k (label_line l ∷ lines) second = omega (arith, defined-append k lines second)
defined-append k (debug_line p ∷ lines) second = defined-append k lines second
defined-append k (jump_line type l ∷ lines) second = defined-append k lines second

listed-append :
    (k : ℕ) (first second : List ℕ) → listed k (first ++ second) ≡ listed k first + listed k second
listed-append k [] second = omega arith
listed-append k (l ∷ list) second = omega (arith, listed-append k list second)

between-empty : (n k : ℕ) → between n n k ≡ 0
between-empty n k = ground arith

between-append : (a b c k : ℕ) → a ≤ b → b ≤ c → between a b k + between b c k ≡ between a c k
between-append a b c k h h' = ground arith

between-first : (a b k : ℕ) → suc a ≤ b → between a b k ≡ one_if (a == k) + between (suc a) b k
between-first a b k h = ground arith

IsClosed-append :
    (around first second : List ℕ) (n m m' : ℕ) (l1 l2 : List Line)
    → IsClosed first around n (l1, m)
    → IsClosed second around m (l2, m')
    → IsClosed (first ++ second) around n (l1 ++ l2, m')
IsClosed-append around first second n m m' l1 l2 (le1, once1, targets1) (le2, once2, targets2) = (
  omega arith,
  λ k.
      let lines = defined-append k l1 l2 in
      let lists = listed-append k first second in
      let range = between-append n m m' k le1 le2 in omega (arith, once1 k, once2 k),
  AllLines-append (IsTarget n m' around) l1 l2
      (AllLines-map (IsTarget n m around) (IsTarget n m' around) l1
        (λ k t. elim t [ inl (ge, lt) ↦ inl (ge, omega arith) | inr i ↦ inr i ]) targets1)
      (AllLines-map (IsTarget m m' around) (IsTarget n m' around) l2
        (λ k t. elim t [ inl (ge, lt) ↦ inl (omega arith, lt) | inr i ↦ inr i ]) targets2),
)

-- One line: it defines what is listed, and its jump leads to a label around.
line-Emits :
    (list around : List ℕ) (l : Line)
    → ((k : ℕ) → defined k (l ∷ []) ≡ listed k list)
    → ((n : ℕ) → AllLines (IsTarget n n around) (l ∷ []))
    → Emits list around (line l)
unfolding line
line-Emits list around l once target = record {
  returns = λ n. (
    (l ∷ [], n),
    refl,
    (omega arith, λ k. let empty = between-empty n k in omega (arith, once k), target n),
  );
}

module _ {around : List ℕ} where
  pub Emits-silent : Emits [] around silent
  unfolding silent defined
  Emits-silent = record {
    returns =
        λ n. (([], n), refl, (omega arith, λ k. let empty = between-empty n k in omega arith, tt));
  }

  pub Emits-label : (l : ℕ) → Emits (l ∷ []) around (emit_label l)
  unfolding emit_label defined
  Emits-label l = line-Emits (l ∷ []) around (label_line l) (λ k. refl) (λ n. tt)

  pub Emits-jump : (type : Jump) (l : ℕ) → Memᴰ l around → Emits [] around (emit_jump_label type l)
  unfolding emit_jump_label defined
  Emits-jump type l i = line-Emits [] around (jump_line type l) (λ k. refl) (λ n. (inr i, tt))

  pub Emits-op : (str : Text) → IsPlain str → Emits [] around (emit_op str)
  unfolding emit_op defined
  Emits-op str plain = line-Emits [] around (op_line str) (λ k. refl) (λ n. (plain, tt))

  pub Emits-comment : (str : Text) → Emits [] around (emit_comment str)
  unfolding emit_comment defined
  Emits-comment str = line-Emits [] around (comment_line str) (λ k. refl) (λ n. tt)

  pub Emits-string : (str : Text) → Emits [] around (emit_string str)
  unfolding emit_string defined
  Emits-string str = line-Emits [] around (string_line str) (λ k. refl) (λ n. tt)

  pub Emits-debug : (at : Position) → Emits [] around (emit_debug at)
  unfolding emit_debug defined
  Emits-debug at = line-Emits [] around (debug_line at) (λ k. refl) (λ n. tt)

  infixr 5 ◌⟫◌
  pub ◌⟫◌ :
      {first second : List ℕ} {a b : Emission}
      → Emits first around a
      → Emits second around b
      → Emits (first ++ second) around (a >> b)
  unfolding ◌>>◌ and_then after_lines
  ◌⟫◌ {first} {second} {a} {b} f g = record {
    returns = λ n.
        let ((l1, m), went, closed) = f.returns n in
        let ((l2, m'), went', closed') = g.returns m in
        (
          (l1 ++ l2, m'),
          ap (λ r. and_then r b) went ∙ ap (after_lines l1) went',
          IsClosed-append around first second n m m' l1 l2 closed closed',
        );
  }

-- A new label, which the rest defines once.
pub Emits-gen :
    {around list : List ℕ} {list' : ℕ → List ℕ} {f : ℕ → Emission}
    → ((k j : ℕ) → listed j (list' k) ≡ one_if (k == j) + listed j list)
    → ((k : ℕ) → Emits (list' k) (k ∷ around) (f k))
    → Emits list around (gen_label f)
unfolding gen_label
Emits-gen {around} {list} {list'} {f} split rest = record {
  returns = λ n.
      let ((lines, n'), went, (le, once, targets)) = (rest n).returns (suc n) in
      (
        (lines, n'),
        went,
        (
          omega arith,
          λ k.
              let range = between-first n n' k le in let label = split n k in omega (arith, once k),
          AllLines-map (IsTarget (suc n) n' (n ∷ around)) (IsTarget n n' around) lines
              (λ k t. elim t [
                | inl (ge, lt) ↦ inl (omega arith, lt)
                | inr i ↦ elim i [
                  | Memᴰ.head e' ↦ inl (omega (arith, e'), omega (arith, e'))
                  | Memᴰ.tail j ↦ inr j
                ]
              ])
              targets,
        ),
      );
}

pub Emits-if :
    {list around : List ℕ} {a b : Emission} (test : Bool)
    → Emits list around a
    → Emits list around b
    → Emits list around (if test then a else b)
Emits-if true f g = f
Emits-if false f g = g
