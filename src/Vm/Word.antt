-- ===== src/Vm/Word.antt =====
-- `vm_int` arithmetic on 64-bit patterns. Sums and products wrap, which C leaves open for signed
-- operands and which the compilers of the project do; a quotient that traps is `none`.
use insomniac.Base.{
  ℕ, ◌+◌, ◌-◌, ◌*◌, ◌/◌, ◌%◌, ◌^◌, Bool, ◌&&◌, Option, none, some, if◌then◌else◌, ltb, leb, ◌==◌,
}
use mathlib.Core.Bool.{xor}

abbrev pub word : ℕ
word = 2 ^ 64

abbrev pub is_negative : ℕ → Bool
is_negative a = leb (2 ^ 63) a

abbrev pub magnitude : ℕ → ℕ
magnitude a = if is_negative a then word - a else a

abbrev pub negate : ℕ → ℕ
negate a = (word - a) % word

unfoldable pub add : ℕ → ℕ → ℕ
add a b = (a + b) % word

unfoldable pub sub : ℕ → ℕ → ℕ
sub a b = (a + word - b) % word

unfoldable pub mul : ℕ → ℕ → ℕ
mul a b = (a * b) % word

-- `INT64_MIN / -1`
abbrev pub overflows : ℕ → ℕ → Bool
overflows a b = a == 2 ^ 63 && b == word - 1

-- division rounds towards zero
unfoldable pub div : ℕ → ℕ → Option ℕ
div a b =
    if b == 0
    then none
    else if overflows a b
    then none
    else let q = magnitude a / magnitude b in
      some (if xor (is_negative a) (is_negative b) then negate q else q)

-- the remainder has the sign of the dividend
unfoldable pub rem : ℕ → ℕ → Option ℕ
rem a b =
    if b == 0
    then none
    else if overflows a b
    then none
    else let r = magnitude a % magnitude b in some (if is_negative a then negate r else r)

abbrev pub lt : ℕ → ℕ → Bool
lt a b = ltb ((a + 2 ^ 63) % word) ((b + 2 ^ 63) % word)
