-- ===== src/Utf8/Roundtrip.antt =====
-- What is encoded is read back.
use insomniac.Base.{
  ℕ, ◌+◌, ◌/◌, ◌^◌, ◌≡◌, ◌<◌, ◌≤◌, refl, arith, ap, List, [], ◌∷◌, ◌++◌, ltb, take, true, inl, inr,
  Bool-cases,
}
use insomniac.Utf8.Code.{utf8_head_count_bytes, utf8_read_char, utf8_encode_char, head, tail}

module _ (c : ℕ) where
  head-1 : c < 128 → utf8_head_count_bytes c ≡ 1
  unfolding utf8_head_count_bytes
  head-1 h = ground arith

  head-2 : 192 ≤ c → c < 224 → utf8_head_count_bytes c ≡ 2
  unfolding utf8_head_count_bytes
  head-2 l h = ground arith

  head-3 : 224 ≤ c → c < 240 → utf8_head_count_bytes c ≡ 3
  unfolding utf8_head_count_bytes
  head-3 l h = ground arith

  head-4 : 240 ≤ c → c < 248 → utf8_head_count_bytes c ≡ 4
  unfolding utf8_head_count_bytes
  head-4 l h = ground arith

  head-5 : 248 ≤ c → c < 252 → utf8_head_count_bytes c ≡ 5
  unfolding utf8_head_count_bytes
  head-5 l h = ground arith

  head-6 : 252 ≤ c → c < 254 → utf8_head_count_bytes c ≡ 6
  unfolding utf8_head_count_bytes
  head-6 l h = ground arith

-- the bytes of the output that the head counts
abbrev pub encoded : ℕ → List ℕ
encoded c = in_use (utf8_encode_char c)
  where
    in_use : List ℕ → List ℕ
    in_use [] = []
    in_use (b ∷ bs) = take (utf8_head_count_bytes b) (b ∷ bs)

module _ (c : ℕ) (rest : List ℕ) where
  read-2 : 2 ^ 7 ≤ c → c < 2 ^ 11 → utf8_read_char ((head 1 + c / 64) ∷ tail c ∷ rest) ≡ (c, rest)
  unfolding utf8_read_char
  read-2 l h =
      rw (head-2 (head 1 + c / 64) (omega arith) (omega arith)) (ap (λ n. (n, rest)) (omega arith))

  read-3 :
      2 ^ 11 ≤ c
      → c < 2 ^ 16
      → utf8_read_char ((head 2 + c / 64 / 64) ∷ tail (c / 64) ∷ tail c ∷ rest) ≡ (c, rest)
  unfolding utf8_read_char
  read-3 l h =
      rw (head-3 (head 2 + c / 64 / 64) (omega arith) (omega arith))
        (ap (λ n. (n, rest)) (omega arith))

  read-4 :
      2 ^ 16 ≤ c
      → c < 2 ^ 21
      → utf8_read_char
          ((head 3 + c / 64 / 64 / 64) ∷ tail (c / 64 / 64) ∷ tail (c / 64) ∷ tail c ∷ rest)
        ≡ (c, rest)
  unfolding utf8_read_char
  read-4 l h =
      rw (head-4 (head 3 + c / 64 / 64 / 64) (omega arith) (omega arith))
        (ap (λ n. (n, rest)) (omega arith))

  read-5 :
      2 ^ 21 ≤ c
      → c < 2 ^ 26
      → utf8_read_char (
          (head 4 + c / 64 / 64 / 64 / 64)
          ∷ tail (c / 64 / 64 / 64)
          ∷ tail (c / 64 / 64)
          ∷ tail (c / 64)
          ∷ tail c
          ∷ rest)
        ≡ (c, rest)
  unfolding utf8_read_char
  read-5 l h =
      rw (head-5 (head 4 + c / 64 / 64 / 64 / 64) (omega arith) (omega arith))
        (ap (λ n. (n, rest)) (omega arith))

  read-6 :
      2 ^ 26 ≤ c
      → c < 2 ^ 31
      → utf8_read_char (
          (head 5 + c / 64 / 64 / 64 / 64 / 64)
          ∷ tail (c / 64 / 64 / 64 / 64)
          ∷ tail (c / 64 / 64 / 64)
          ∷ tail (c / 64 / 64)
          ∷ tail (c / 64)
          ∷ tail c
          ∷ rest)
        ≡ (c, rest)
  unfolding utf8_read_char
  read-6 l h =
      rw (head-6 (head 5 + c / 64 / 64 / 64 / 64 / 64) (omega arith) (omega arith))
        (ap (λ n. (n, rest)) (omega arith))

-- A character below 2 ^ 31 that is encoded is read back from the bytes that its head counts,
-- and no byte behind them is read.
pub utf8_read_char-encoded :
    (c : ℕ) (rest : List ℕ) → c < 2 ^ 31 → utf8_read_char (encoded c ++ rest) ≡ (c, rest)
unfolding utf8_encode_char take
utf8_read_char-encoded c rest h = elim (Bool-cases (ltb c (2 ^ 7))) [
  | inl e ↦ rw (e, head-1 c (ground arith)) (one e)
  | inr e1 ↦ elim (Bool-cases (ltb c (2 ^ 11))) [
    | inl e ↦
        rw (e1, e, head-2 (head 1 + c / 64) (ground arith) (ground arith))
          (read-2 c rest (ground arith) (ground arith))
    | inr e2 ↦ elim (Bool-cases (ltb c (2 ^ 16))) [
      | inl e ↦
          rw (e1, e2, e, head-3 (head 2 + c / 64 / 64) (ground arith) (ground arith))
            (read-3 c rest (ground arith) (ground arith))
      | inr e3 ↦ elim (Bool-cases (ltb c (2 ^ 21))) [
        | inl e ↦
            rw (e1, e2, e3, e, head-4 (head 3 + c / 64 / 64 / 64) (ground arith) (ground arith))
              (read-4 c rest (ground arith) (ground arith))
        | inr e4 ↦ elim (Bool-cases (ltb c (2 ^ 26))) [
          | inl e ↦
              rw
                (
                  e1,
                  e2,
                  e3,
                  e4,
                  e,
                  head-5 (head 4 + c / 64 / 64 / 64 / 64) (ground arith) (ground arith),
                )
                (read-5 c rest (ground arith) (ground arith))
          | inr e5 ↦
              rw
                (
                  e1,
                  e2,
                  e3,
                  e4,
                  e5,
                  last,
                  head-6 (head 5 + c / 64 / 64 / 64 / 64 / 64) (ground arith) (ground arith),
                )
                (read-6 c rest (ground arith) h)
        ]
      ]
    ]
  ]
]
  where
    one : ltb c (2 ^ 7) ≡ true → utf8_read_char (c ∷ rest) ≡ (c, rest)
    one e = unfold utf8_read_char in rw (head-1 c (ground arith), e) refl

    last : ltb c (2 ^ 31) ≡ true
    last = ground arith
