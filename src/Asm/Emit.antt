-- ===== src/Asm/Emit.antt =====
-- The macros of include/emit.h.
use insomniac.Base.{ℕ, ◌/◌, ◌%◌, ◌^◌, List, [], ◌∷◌}

-- `((0xFF << (b * 8)) & i) >> (b * 8)`
abbrev pub byte : ℕ → ℕ → ℕ
byte i b = (i / 256 ^ b) % 256

abbrev pub int_64 : ℕ → List ℕ
int_64 i =
    byte i 0 ∷ byte i 1 ∷ byte i 2 ∷ byte i 3 ∷ byte i 4 ∷ byte i 5 ∷ byte i 6 ∷ byte i 7 ∷ []
