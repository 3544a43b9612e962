-- ===== src/Utf8/Code.antt =====
-- vm_utf8.c. The bits that a bitwise or joins are disjoint, so that it is a sum; a mask of low bits is
-- a remainder and a shift to the right a quotient.
use insomniac.Base.{
  ℕ, zero, suc, ◌+◌, ◌-◌, ◌*◌, ◌/◌, ◌%◌, ◌^◌, List, [], ◌∷◌, if◌then◌else◌, ltb, leb, ◌==◌,
}

-- `EOF` as a `vm_char`
abbrev pub eof : ℕ
eof = 2 ^ 32 - 1

-- The loop, with the rounds that are left and the bits so far. A `char` keeps eight bits.
unfoldable pub count_bits : ℕ → ℕ → ℕ → ℕ
count_bits zero c count = count
count_bits (suc left) c count =
    let more = count_bits left ((c * 2) % 256) (count + 1) in if leb 128 c then more else count

unfoldable pub utf8_head_count_bytes : ℕ → ℕ
unfolding count_bits
utf8_head_count_bytes c = let count = count_bits 6 c 0 in if count == 0 then 1 else count

-- Reads the bytes behind the head; `getchar` gives `EOF` at the end of the input, with all bits set.
unfoldable pub read_tail : ℕ → ℕ → List ℕ → ℕ × List ℕ
read_tail zero character input = (character, input)
read_tail (suc left) character [] = read_tail left ((character * 64) % 2 ^ 32 + 255 % 64) []
read_tail (suc left) character (c ∷ input) =
    read_tail left ((character * 64) % 2 ^ 32 + c % 64) input

-- Reads a character from the input. A single byte is a signed `char`, which is extended.
unfoldable pub utf8_read_char : List ℕ → ℕ × List ℕ
unfolding utf8_head_count_bytes read_tail
utf8_read_char [] = (eof, [])
utf8_read_char (c ∷ input) =
    let bytes = utf8_head_count_bytes c in
    if bytes == 1
    then (if ltb c 128 then c else 2 ^ 32 - 256 + c, input)
    else read_tail (bytes - 1) (c % 2 ^ (7 - bytes)) input

-- `UTF8_TAIL | (uint8_t)(character & BIT_MASK(6))`
abbrev pub tail : ℕ → ℕ
tail character = 128 + character % 64

-- the low byte of `UTF8_HEAD(i)`
abbrev pub head : ℕ → ℕ
head i = (254 * 2 ^ (6 - i)) % 256

-- the seven bytes of the output
unfoldable pub utf8_encode_char : ℕ → List ℕ
utf8_encode_char c =
    if ltb c (2 ^ 7)
    then c ∷ 0 ∷ 0 ∷ 0 ∷ 0 ∷ 0 ∷ 0 ∷ []
    else if ltb c (2 ^ 11)
    then (head 1 + c / 64) ∷ tail c ∷ 0 ∷ 0 ∷ 0 ∷ 0 ∷ 0 ∷ []
    else if ltb c (2 ^ 16)
    then (head 2 + c / 64 / 64) ∷ tail (c / 64) ∷ tail c ∷ 0 ∷ 0 ∷ 0 ∷ 0 ∷ []
    else if ltb c (2 ^ 21)
    then (head 3 + c / 64 / 64 / 64) ∷ tail (c / 64 / 64) ∷ tail (c / 64) ∷ tail c ∷ 0 ∷ 0 ∷ 0 ∷ []
    else if ltb c (2 ^ 26)
    then (head 4 + c / 64 / 64 / 64 / 64)
      ∷ tail (c / 64 / 64 / 64)
      ∷ tail (c / 64 / 64)
      ∷ tail (c / 64)
      ∷ tail c
      ∷ 0
      ∷ 0
      ∷ []
    else if ltb c (2 ^ 31)
    then (head 5 + c / 64 / 64 / 64 / 64 / 64)
      ∷ tail (c / 64 / 64 / 64 / 64)
      ∷ tail (c / 64 / 64 / 64)
      ∷ tail (c / 64 / 64)
      ∷ tail (c / 64)
      ∷ tail c
      ∷ 0
      ∷ []
    else 0 ∷ 0 ∷ 0 ∷ 0 ∷ 0 ∷ 0 ∷ 0 ∷ []
