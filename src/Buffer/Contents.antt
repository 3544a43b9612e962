-- ===== src/Buffer/Contents.antt =====
-- The bytes of a buffer, and its invariant.
use insomniac.Base.{
  ℕ, ◌≡◌, ◌≤◌, ◌<◌, ◌+◌, ◌-◌, ◌*◌, ◌%◌, ◌^◌, refl, arith, ap, sym, ◌∙◌, List, [], ◌∷◌, ◌++◌, length,
  All, take, drop, length-append, length-take, length-drop, length-replicate, append_assoc,
  append-nil, take-append, take_ge,
}
use insomniac.Buffer.Core.{
  block_size, Buffer, concat, copy_in, buffer_create, buffer_reset, buffer_size,
}

-- a whole block
abbrev pub IsBlock : List ℕ → Type 0
IsBlock block = length block ≡ block_size

-- Whole blocks, the last of which has room; `size_t` counts the bytes.
pub record IsBuffer (buf : Buffer) : Type 0 where
  pub whole : All IsBlock buf.front
  pub tail_whole : IsBlock buf.tail
  pub low : block_size * length buf.front ≤ buf.used
  pub high : buf.used < block_size * length buf.front + block_size
  pub counted : buf.used < 2 ^ 64

-- the bytes that were written and not taken back
abbrev pub contents : Buffer → List ℕ
contents buf = concat buf.front ++ take (buf.used % block_size) buf.tail

pub length-concat :
    (bs : List (List ℕ)) → All IsBlock bs → length (concat bs) ≡ block_size * length bs
length-concat [] h = omega arith
length-concat (b ∷ bs) h = omega (arith, length-append b (concat bs), h.0, length-concat bs h.1)

pub concat-append : (bs cs : List (List ℕ)) → concat (bs ++ cs) ≡ concat bs ++ concat cs
concat-append [] cs = refl
concat-append (b ∷ bs) cs =
    ap (λ l. b ++ l) (concat-append bs cs) ∙ sym (append_assoc b (concat bs) (concat cs))

pub All-append : (bs cs : List (List ℕ)) → All IsBlock bs → All IsBlock cs → All IsBlock (bs ++ cs)
All-append [] cs h k = k
All-append (b ∷ bs) cs h k = (h.0, All-append bs cs h.1 k)

-- The size is the number of bytes that were written.
pub length-contents : (buf : Buffer) → IsBuffer buf → length (contents buf) ≡ buffer_size buf
unfolding buffer_size
length-contents buf w = omega (
  arith,
  length-append (concat buf.front) (take (buf.used % block_size) buf.tail),
  length-concat buf.front w.whole,
  length-take (buf.used % block_size) buf.tail,
  w.tail_whole,
  w.low,
  w.high,
)

pub buffer_create-IsBuffer : IsBuffer buffer_create
unfolding buffer_create
buffer_create-IsBuffer = record {
  whole = tt;
  tail_whole = length-replicate block_size 0;
  low = omega arith;
  high = omega arith;
  counted = omega arith;
}

-- A buffer that is set back is empty, and well-formed again.
pub buffer_reset_lem :
    (buf : Buffer) → IsBuffer buf → IsBuffer (buffer_reset buf) × (contents (buffer_reset buf) ≡ [])
unfolding buffer_reset take
buffer_reset_lem buf w = (
  record {
    whole = tt;
    tail_whole = w.tail_whole;
    low = omega arith;
    high = omega arith;
    counted = omega arith;
  },
  refl,
)

-- a copy that ends inside the last block
pub length-copy_in :
    (block : List ℕ) (offset : ℕ) (bytes : List ℕ)
    → offset + length bytes ≤ length block
    → length (copy_in block offset bytes) ≡ length block
length-copy_in block offset bytes h = omega (
  arith,
  length-append (take offset block ++ bytes) (drop (offset + length bytes) block),
  length-append (take offset block) bytes,
  length-take offset block,
  length-drop (offset + length bytes) block,
)

-- what was in front of the copy, and the copy
pub take-copy_in :
    (block : List ℕ) (offset : ℕ) (bytes : List ℕ)
    → offset ≤ length block
    → take (offset + length bytes) (copy_in block offset bytes) ≡ take offset block ++ bytes
unfolding take
take-copy_in block offset bytes h =
    let kept = take offset block ++ bytes in
    let back = drop (offset + length bytes) block in
    let size : length kept ≡ offset + length bytes =
      omega (arith, length-append (take offset block) bytes, length-take offset block) in
    let exact : offset + length bytes - length kept ≡ 0 = omega arith in
    take-append (offset + length bytes) kept back
    ∙ rw (take_ge (offset + length bytes) kept (omega arith), exact) (append-nil kept)
