-- ===== src/Buffer/Read.antt =====
-- `buffer_read`, `buffer_append` and the loading of files.
use insomniac.Base.{
  ℕ, zero, suc, ◌≡◌, ◌≤◌, ◌<◌, ◌+◌, ◌-◌, ◌%◌, ◌^◌, refl, arith, ap, sym, ◌∙◌, List, [], ◌∷◌, ◌++◌,
  length, All, take, length-append, append_assoc, append-nil, take-append, take_ge, take-take,
  take-nil, some, false, Bool-cases, inl, inr, ◌==◌, leb,
}
use mathlib.Core.Option
use insomniac.Buffer.Core.{
  block_size, Buffer, concat, blocks, pieces, buffer_create, buffer_read, buffer_size, write_all,
  buffer_append, buffer_load_string,
}
use insomniac.Buffer.Contents.{
  IsBlock, IsBuffer, contents, concat-append, All-append, length-concat, length-contents,
  buffer_create-IsBuffer,
}
use insomniac.Buffer.Write.{Written, buffer_write_lem}

concat-pieces :
    (bs : List (List ℕ)) (n : ℕ) → All IsBlock bs → concat (pieces bs n) ≡ take n (concat bs)
unfolding pieces
concat-pieces [] n h = sym (take-nil n)
concat-pieces (b ∷ bs) zero h = unfold take in refl
concat-pieces (b ∷ bs) (suc n) h = elim (Bool-cases (leb block_size (suc n))) [
  | inl e ↦
      let enough : block_size ≤ suc n = ground arith in
      rw e (
        ap (λ l. take block_size b ++ l) (concat-pieces bs (suc n - block_size) h.1)
        ∙ piece block_size (suc n - block_size)
            (take_ge block_size b (omega (arith, h.0))
              ∙ sym (take_ge (suc n) b (omega (arith, h.0))))
            (omega (arith, h.0)))
  | inr e ↦
      let short : suc n < block_size = ground arith in
      rw e (
        ap (λ l. take (suc n) b ++ l) (concat-pieces bs (suc n - suc n) h.1)
        ∙ piece (suc n) (suc n - suc n) refl (omega (arith, h.0)))
]
  where
    piece :
        (k m : ℕ)
        → take k b ≡ take (suc n) b
        → m ≡ suc n - length b
        → take k b ++ take m (concat bs) ≡ take (suc n) (b ++ concat bs)
    piece k m e f = rw (e, f) (sym (take-append (suc n) b (concat bs)))

-- what the blocks hold in front of the used end
take-blocks :
    (buf : Buffer) (n : ℕ)
    → IsBuffer buf
    → n ≤ buf.used
    → take n (concat (blocks buf)) ≡ take n (contents buf)
take-blocks buf n w h =
    let front = concat buf.front in
    let size = length-concat buf.front w.whole in
    ap (take n)
      (concat-append buf.front (buf.tail ∷ []) ∙ ap (λ l. front ++ l) (append-nil buf.tail))
    ∙ take-append n front buf.tail
    ∙ ap (λ l. take n front ++ l)
        (sym (
          take-take (n - length front) (buf.used % block_size) buf.tail
            (omega (arith, size, w.low, w.high))))
    ∙ sym (take-append n front (take (buf.used % block_size) buf.tail))

-- A read of no more bytes than there are gives the first bytes of the contents.
pub buffer_read_lem :
    (buf : Buffer) (n : ℕ) → IsBuffer buf → n ≤ buf.used → buffer_read buf n ≡ take n (contents buf)
unfolding buffer_read
buffer_read_lem buf n w h =
    concat-pieces (blocks buf) n (All-append buf.front (buf.tail ∷ []) w.whole (w.tail_whole, tt))
    ∙ take-blocks buf n w h

-- A read of as many bytes as `buffer_size` says gives the contents of a well-formed buffer.
pub buffer_read-buffer_size :
    (buf : Buffer) → IsBuffer buf → buffer_read buf (buffer_size buf) ≡ contents buf
unfolding buffer_size
buffer_read-buffer_size buf w =
    buffer_read_lem buf buf.used w (omega arith)
    ∙ take_ge buf.used (contents buf) (omega (arith, length-contents buf w))

-- the size after a write
grown :
    (buf next : Buffer) (bytes : List ℕ)
    → IsBuffer buf
    → IsBuffer next
    → contents next ≡ contents buf ++ bytes
    → next.used ≡ buf.used + length bytes
unfolding buffer_size
grown buf next bytes w is c =
    sym (length-contents next is)
    ∙ ap length c
    ∙ length-append (contents buf) bytes
    ∙ ap (λ n. n + length bytes) (length-contents buf w)

-- Several writes put their bytes one behind the other.
pub write_all_lem :
    (buf : Buffer) (bs : List (List ℕ))
    → IsBuffer buf
    → buf.used + length (concat bs) < 2 ^ 64
    → Written buf (concat bs) (write_all buf bs)
unfolding write_all Option.bind
write_all_lem buf [] w small = (buf, refl, w, sym (append-nil (contents buf)))
write_all_lem buf (bytes ∷ rest) w small =
    let both = length-append bytes (concat rest) in
    let (next, e, is, c) = buffer_write_lem buf bytes w (omega (arith, both)) in
    let size : next.used ≡ buf.used + length bytes = grown buf next bytes w is c in
    let (last, f, is', d) = write_all_lem next rest is (omega (arith, both, size)) in
    (
      last,
      rw e f,
      is',
      d ∙ ap (λ l. l ++ concat rest) c ∙ append_assoc (contents buf) bytes (concat rest),
    )

-- `buffer_append` of another whole buffer, with the length -1, puts its contents behind those
-- that are there and returns their number, if both buffers are well-formed and the sum of their
-- sizes is below 2 ^ 64.
pub buffer_append_lem :
    (buf src : Buffer)
    → IsBuffer buf
    → IsBuffer src
    → buf.used + src.used < 2 ^ 64
    → (b : Buffer) × (buffer_append buf src (2 ^ 64 - 1) ≡ some (b, src.used))
      × IsBuffer b
      × (contents b ≡ contents buf ++ contents src)
unfolding buffer_append buffer_size buffer_read
buffer_append_lem buf src w v small =
    let all : concat (pieces (blocks src) src.used) ≡ contents src =
      unfold buffer_size in buffer_read-buffer_size src v in
    let size : length (concat (pieces (blocks src) src.used)) ≡ src.used =
      ap length all ∙ (unfold buffer_size in length-contents src v) in
    let (b, e, is, c) = write_all_lem buf (pieces (blocks src) src.used) w (omega (arith, size)) in
    (b, rw (e, size) refl, is, c ∙ ap (λ l. contents buf ++ l) all)

-- A file of fewer than 2 ^ 64 - 1 bytes, whatever pieces `read` gives it in, is loaded as its
-- bytes with a terminator, together with its length.
pub buffer_load_string_lem :
    (chunks : List (List ℕ))
    → length (concat chunks) < 2 ^ 64 - 1
    → buffer_load_string (some chunks) ≡ some (concat chunks ++ 0 ∷ [], length (concat chunks))
unfolding buffer_load_string buffer_create take buffer_size Option.bind
buffer_load_string_lem chunks small =
    let (b, e, is, c) = write_all_lem buffer_create chunks buffer_create-IsBuffer (omega arith) in
    let size : b.used ≡ length (concat chunks) =
      grown buffer_create b (concat chunks) buffer_create-IsBuffer is c ∙ omega arith in
    let whole : buffer_read b (length (concat chunks)) ≡ concat chunks =
      ap (buffer_read b) (sym size) ∙ buffer_read-buffer_size b is ∙ c in
    let fits : length (concat chunks) % 2 ^ 64 ≡ length (concat chunks) = omega arith in
    let no_error : (length (concat chunks) == 2 ^ 64 - 1) ≡ false = ground arith in
    rw (e, fits, no_error, whole) refl
