-- ===== src/Hash/Keys.antt =====
-- hash_string_functions.c and hash_pointer_functions.c.
use insomniac.Base.{
  ℕ, zero, suc, ◌≡◌, ◌≢◌, ◌⊎◌, ◌+◌, ◌-◌, ◌*◌, ◌/◌, ◌%◌, ◌^◌, refl, arith, ap, sym, subst, Bool,
  true, false, Option, none, some, List, [], ◌∷◌, if◌then◌else◌, ltb, ◌==◌, Bool-cases,
  Option-cases, ◌∙◌, inl, inr,
}
use insomniac.Vm.Text.{c_string, same_text}
use insomniac.Vm.Table.{same_text→eq, same_text_refl}
use insomniac.Hash.Chain.{IsKey}

-- `cmp_type`
pub data CmpType : Type 0 where
  gt eq lt : CmpType

abbrev pub is_eq : CmpType → Bool
is_eq CmpType.gt = false
is_eq CmpType.eq = true
is_eq CmpType.lt = false

-- a round of the loop, in 32 bits
abbrev pub mix : ℕ → ℕ → ℕ
mix hash byte = (byte + (hash * 64) % 2 ^ 32 + (hash * 65536) % 2 ^ 32 + 2 ^ 32 - hash) % 2 ^ 32

-- the loop from a hash on; `none` is a read past the block
unfoldable pub hash_string : ℕ → List ℕ → Option ℕ
hash_string hash [] = none
hash_string hash (b ∷ bs) =
    let rest = hash_string (mix hash b) bs in if b == 0 then some hash else rest

unfoldable pub hash_string_cmp : List ℕ → List ℕ → Option CmpType
hash_string_cmp [] key2 = none
hash_string_cmp (a ∷ key1) [] = none
hash_string_cmp (a ∷ key1) (b ∷ key2) =
    let rest = hash_string_cmp key1 key2 in
    if a == b
    then (if a == 0 then some CmpType.eq else rest)
    else some (if ltb b a then CmpType.gt else CmpType.lt)

-- the bytes of an address, the low one first
unfoldable pub pointer_loop : ℕ → ℕ → ℕ → ℕ
pointer_loop zero key hash = hash
pointer_loop (suc left) key hash = pointer_loop left (key / 256) ((hash * 32) % 2 ^ 32 + key % 256)

unfoldable pub hash_pointer : ℕ → ℕ
unfolding pointer_loop
hash_pointer key = pointer_loop 8 key 0

unfoldable pub hash_pointer_cmp : ℕ → ℕ → CmpType
hash_pointer_cmp key1 key2 =
    if ltb key2 key1 then CmpType.gt else if ltb key1 key2 then CmpType.lt else CmpType.eq

-- the hash of the bytes in front of the terminator
abbrev pub text_hash : ℕ → List ℕ → ℕ
text_hash hash [] = hash
text_hash hash (b ∷ bs) = text_hash (mix hash b) bs

-- The hash of a C string with a terminator is that of the bytes in front of it, whatever stands
-- behind.
pub hash_string_lem :
    (hash : ℕ) (block text : List ℕ)
    → c_string block ≡ some text
    → hash_string hash block ≡ some (text_hash hash text)
unfolding hash_string c_string
hash_string_lem hash [] text h = absurd (cc h)
hash_string_lem hash (b ∷ bs) text h = elim (Bool-cases (b == 0)) [
  | inl e ↦ let ended : [] ≡ text = ground arith in rw e (ap (λ t. some (text_hash hash t)) ended)
  | inr e ↦ elim (Option-cases (c_string bs)) [
    | inl f ↦ absurd (ground arith)
    | inr (ts, f) ↦
        let longer : b ∷ ts ≡ text = ground arith in
        rw e (hash_string_lem (mix hash b) bs ts f ∙ ap (λ t. some (text_hash hash t)) longer)
  ]
]

-- a C string is empty, or has a byte in front of the rest
c_string-cases :
    (x : ℕ) (a s : List ℕ)
    → c_string (x ∷ a) ≡ some s
    → ((x ≡ 0) × (s ≡ [])) ⊎ ((x ≢ 0) × ((r : List ℕ) × (c_string a ≡ some r) × (s ≡ x ∷ r)))
unfolding c_string
c_string-cases x a s h = elim (Bool-cases (x == 0)) [
  | inl e ↦ inl (ground arith, ground arith)
  | inr e ↦ elim (Option-cases (c_string a)) [
    | inl f ↦ absurd (ground arith)
    | inr (r, f) ↦ inr (λ z. ground arith, (r, f, ground arith))
  ]
]

-- bytes that differ decide
differ :
    (x y : ℕ) (a b s t : List ℕ)
    → x ≢ y
    → same_text s t ≡ false
    → (c : CmpType) × (hash_string_cmp (x ∷ a) (y ∷ b) ≡ some c) × (is_eq c ≡ same_text s t)
unfolding hash_string_cmp
differ x y a b s t h k =
    let other : (x == y) ≡ false = ground arith in
    (if ltb y x then CmpType.gt else CmpType.lt, rw other refl, ground arith)

-- The comparison of two C strings with terminators returns, and its result is EQ exactly if the
-- bytes in front of the terminators are the same.
pub hash_string_cmp_lem :
    (a b s t : List ℕ)
    → c_string a ≡ some s
    → c_string b ≡ some t
    → (c : CmpType) × (hash_string_cmp a b ≡ some c) × (is_eq c ≡ same_text s t)
unfolding hash_string_cmp c_string same_text
hash_string_cmp_lem [] b s t h k = absurd (cc h)
hash_string_cmp_lem (x ∷ a) [] s t h k = absurd (cc k)
hash_string_cmp_lem (x ∷ a) (y ∷ b) s t h k = elim (c_string-cases x a s h) [
  | inl (zx, sx) ↦ elim (c_string-cases y b t k) [
    | inl (zy, ty) ↦ (CmpType.eq, rw (zx, zy) refl, rw (sx, ty) refl)
    | inr (py, (r, f, ty)) ↦ differ x y a b s t (λ e. py (sym e ∙ zx)) (rw (sx, ty) refl)
  ]
  | inr (px, (q, g, sx)) ↦ elim (c_string-cases y b t k) [
    | inl (zy, ty) ↦ differ x y a b s t (λ e. px (e ∙ zy)) (rw (sx, ty) refl)
    | inr (py, (r, f, ty)) ↦ elim (Bool-cases (x == y)) [
      | inl e ↦
          let (c, d, i) = hash_string_cmp_lem a b q r g f in
          let here : (x == 0) ≡ false = ground arith in (c, rw (e, here) d, rw (sx, ty, e) i)
      | inr e ↦ differ x y a b s t (λ z. ground arith) (rw (sx, ty, e) refl)
    ]
  ]
]

-- Texts are keys for the hash and the comparison of strings.
pub same_text-IsKey : IsKey (text_hash 0) same_text
same_text-IsKey = record {
  same = same_text_refl;
  symmetric = λ a b h. subst (λ x. same_text x a ≡ true) (same_text→eq a b h) (same_text_refl a);
  transitive = λ a b c h k. subst (λ x. same_text a x ≡ true) (same_text→eq b c k) h;
  hashed = λ a b h. ap (text_hash 0) (same_text→eq a b h);
}

-- The comparison of pointers is an equivalence, and pointers that compare equal have the same
-- hash.
pub hash_pointer-IsKey : IsKey hash_pointer (λ a b. is_eq (hash_pointer_cmp a b))
unfolding hash_pointer_cmp
hash_pointer-IsKey = record {
  same = λ a. ground arith;
  symmetric = λ a b h. ground arith;
  transitive = λ a b c h k. ground arith;
  hashed = λ a b h. ap hash_pointer (ground arith);
}
