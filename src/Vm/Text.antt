-- ===== src/Vm/Text.antt =====
-- C strings as lists of bytes.
use insomniac.Base.{
  ℕ, zero, suc, Bool, true, false, ◌&&◌, Option, none, some, List, [], ◌∷◌, if◌then◌else◌, ◌==◌,
  replicate,
}
use mathlib.Core.Option
use Prim.Native.Char.{code}
use Prim.Native.String.{String}

-- The bytes in front of the terminator; `none` where a reader would run past the block.
unfoldable pub c_string : List ℕ → Option (List ℕ)
c_string [] = none
c_string (b ∷ bs) = if b == 0 then some [] else Option.map (λ cs. b ∷ cs) (c_string bs)

-- `strncpy` copies up to the terminator and fills up with zeros; `none` is a read past the source.
unfoldable pub strncpy : List ℕ → ℕ → Option (List ℕ)
strncpy src zero = some []
strncpy [] (suc n) = none
strncpy (b ∷ bs) (suc n) =
    if b == 0 then some (replicate (suc n) 0) else Option.map (λ cs. b ∷ cs) (strncpy bs n)

-- the code points of a literal, which are ASCII in the source
abbrev pub codes : String → List ℕ
codes String.[] = []
codes (String.◌∷◌ c s) = code c ∷ codes s

-- `strcmp(a, b) == 0` on the bytes in front of the terminators
unfoldable pub same_text : List ℕ → List ℕ → Bool
same_text [] [] = true
same_text [] (b ∷ bs) = false
same_text (a ∷ as') [] = false
same_text (a ∷ as') (b ∷ bs) = a == b && same_text as' bs

-- `strcmp(a, b) == 0` on raw bytes; `none` is a read past a block
unfoldable pub strcmp_equal : List ℕ → List ℕ → Option Bool
strcmp_equal [] bs = none
strcmp_equal (a ∷ as') [] = none
strcmp_equal (a ∷ as') (b ∷ bs) =
    let rest = strcmp_equal as' bs in
    if a == b then (if a == 0 then some true else rest) else some false
