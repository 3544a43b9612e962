-- ===== src/Buffer/Write.antt =====
-- `buffer_write` appends.
use insomniac.Base.{
  ℕ, zero, suc, ◌≡◌, ◌≤◌, ◌<◌, ◌+◌, ◌-◌, ◌*◌, ◌%◌, ◌^◌, refl, arith, ap, sym, subst, ◌∙◌, List, [],
  ◌∷◌, ◌++◌, length, take, drop, min, length-append, length-take, length-drop, length-replicate,
  append_assoc, append-nil, take_ge, drop_ge, take-append-drop, Option, some, false, Bool-cases,
  inl, inr, ◌==◌, leb, if◌then◌else◌,
}
use insomniac.Buffer.Core.{block_size, Buffer, concat, fill, buffer_push, buffer_write, write_loop}
use insomniac.Buffer.Contents.{
  IsBlock, IsBuffer, contents, length-copy_in, take-copy_in, concat-append, All-append,
}

-- where the next byte goes
abbrev offset_of : Buffer → ℕ
offset_of buf = buf.used % block_size

module _ (buf : Buffer) (w : IsBuffer buf) (chunk : List ℕ)
    (fits : offset_of buf + length chunk ≤ block_size)
    (small : buf.used + length chunk < 2 ^ 64) where
  offset_lem : offset_of buf + block_size * length buf.front ≡ buf.used
  offset_lem = omega (arith, w.low, w.high)

  used_lem : (fill buf (offset_of buf) chunk).used ≡ buf.used + length chunk
  used_lem = omega arith

  tail_lem : IsBlock (fill buf (offset_of buf) chunk).tail
  tail_lem =
      length-copy_in buf.tail (offset_of buf) chunk (omega (arith, w.tail_whole)) ∙ w.tail_whole

  front_lem :
      take (offset_of buf + length chunk) (fill buf (offset_of buf) chunk).tail
      ≡ take (offset_of buf) buf.tail ++ chunk
  front_lem = take-copy_in buf.tail (offset_of buf) chunk (omega (arith, w.tail_whole))

  -- the block has room still
  fill-room :
      offset_of buf + length chunk < block_size
      → IsBuffer (fill buf (offset_of buf) chunk)
        × (contents (fill buf (offset_of buf) chunk) ≡ contents buf ++ chunk)
  fill-room room = (
    record {
      whole = w.whole;
      tail_whole = tail_lem;
      low = omega (arith, used_lem, w.low);
      high = omega (arith, used_lem, offset_lem);
      counted = omega (arith, used_lem);
    },
    rw (the_offset)
        (ap (λ l. concat buf.front ++ l) front_lem ∙ sym (append_assoc (concat buf.front) _ chunk)),
  )
    where
      the_offset : (fill buf (offset_of buf) chunk).used % block_size ≡ offset_of buf + length chunk
      the_offset = omega (arith, used_lem, offset_lem)

  -- the block is full, and a new one follows
  fill-full :
      offset_of buf + length chunk ≡ block_size
      → IsBuffer (buffer_push (fill buf (offset_of buf) chunk))
        × (contents (buffer_push (fill buf (offset_of buf) chunk)) ≡ contents buf ++ chunk)
  unfolding buffer_push take
  fill-full full =
      let filled = fill buf (offset_of buf) chunk in
      let longer = length-append buf.front (filled.tail ∷ []) in
      (
        record {
          whole = All-append buf.front (filled.tail ∷ []) w.whole (tail_lem, tt);
          tail_whole = length-replicate block_size 0;
          low = omega (arith, used_lem, offset_lem, longer);
          high = omega (arith, used_lem, offset_lem, longer);
          counted = omega (arith, used_lem);
        },
        rw at_start (
            append-nil (concat (buf.front ++ filled.tail ∷ []))
            ∙ concat-append buf.front (filled.tail ∷ [])
            ∙ ap (λ l. concat buf.front ++ l) (append-nil filled.tail ∙ all)
            ∙ sym (append_assoc (concat buf.front) (take (offset_of buf) buf.tail) chunk)),
      )
    where
      at_start : (fill buf (offset_of buf) chunk).used % block_size ≡ 0
      at_start = omega (arith, used_lem, offset_lem)

      all : (fill buf (offset_of buf) chunk).tail ≡ take (offset_of buf) buf.tail ++ chunk
      all = sym (take_ge (offset_of buf + length chunk) _ (omega (arith, tail_lem))) ∙ front_lem

-- the result is a buffer with the bytes behind those of before
abbrev pub Written : Buffer → List ℕ → Option Buffer → Type 0
Written buf bytes r =
    (b : Buffer) × (r ≡ some b) × IsBuffer b × (contents b ≡ contents buf ++ bytes)

-- what is copied first, and then the rest
Written-then :
    (buf next : Buffer) (chunk rest : List ℕ) (r : Option Buffer)
    → contents next ≡ contents buf ++ chunk
    → Written next rest r
    → Written buf (chunk ++ rest) r
Written-then buf next chunk rest r e (b, is, w, c) =
    (b, is, w, c ∙ ap (λ l. l ++ rest) e ∙ append_assoc (contents buf) chunk rest)

-- the size of the next copy
abbrev next_size : ℕ → ℕ
next_size n = if leb block_size n then block_size else n

next_size_lem : (n offset : ℕ) → offset ≡ 0 → next_size n ≡ min n (block_size - offset)
next_size_lem n offset h = ground arith

module _ (fuel : ℕ) (buf : Buffer) (br x : ℕ) (xs : List ℕ) where
  abbrev filled : Buffer
  filled = fill buf (offset_of buf) (take br (x ∷ xs))

  abbrev left : List ℕ
  left = drop br (x ∷ xs)

  loop-full :
      filled.used % block_size ≡ 0
      → write_loop (suc fuel) buf (offset_of buf) br (x ∷ xs)
        ≡ write_loop fuel (buffer_push filled) 0 (next_size (length left)) left
  unfolding write_loop
  loop-full h = rw h refl

  loop-room :
      (filled.used % block_size == 0) ≡ false
      → write_loop (suc fuel) buf (offset_of buf) br (x ∷ xs)
        ≡ write_loop fuel filled (offset_of buf) (next_size (length left)) left
  unfolding write_loop
  loop-room h = rw h refl

  module _ (w : IsBuffer buf) (small : buf.used + length (x ∷ xs) < 2 ^ 64)
      (size : br ≡ min (length (x ∷ xs)) (block_size - offset_of buf)) where
    chunk_size : length (take br (x ∷ xs)) ≡ br
    chunk_size = omega (arith, length-take br (x ∷ xs), size)

    rest_size : length left ≡ length (x ∷ xs) - br
    rest_size = length-drop br (x ∷ xs)

    fits : offset_of buf + length (take br (x ∷ xs)) ≤ block_size
    fits = omega (arith, chunk_size)

    fewer : buf.used + length (take br (x ∷ xs)) < 2 ^ 64
    fewer = omega (arith, chunk_size)

    next_used : filled.used ≡ buf.used + length (take br (x ∷ xs))
    next_used = used_lem buf w (take br (x ∷ xs)) fits fewer

    -- a round that fills the block, and the rest of the loop
    round-full :
        filled.used % block_size ≡ 0
        → ((next : Buffer)
            → IsBuffer next
            → next.used ≡ filled.used
            → Written next left
                (write_loop fuel next (offset_of next) (next_size (length left)) left))
        → Written buf
            (take br (x ∷ xs) ++ left)
            (write_loop (suc fuel) buf (offset_of buf) br (x ∷ xs))
    unfolding buffer_push
    round-full full more =
        let is_full : offset_of buf + length (take br (x ∷ xs)) ≡ block_size =
          omega (arith, next_used, chunk_size, offset_lem buf w (take br (x ∷ xs)) fits fewer) in
        let (is, c) = fill-full buf w (take br (x ∷ xs)) fits fewer is_full in
        Written-then buf (buffer_push filled) (take br (x ∷ xs)) left _ c (
          rw (loop-full full) (
            subst
              (λ o.
                Written (buffer_push filled) left
                  (write_loop fuel (buffer_push filled) o (next_size (length left)) left))
              full (more (buffer_push filled) is refl)))

    -- a round that leaves room has copied all
    round-room :
        (filled.used % block_size == 0) ≡ false
        → Written buf
            (take br (x ∷ xs) ++ left)
            (write_loop (suc fuel) buf (offset_of buf) br (x ∷ xs))
    round-room room =
        let is_room : offset_of buf + length (take br (x ∷ xs)) < block_size =
          ground (arith, next_used, chunk_size, offset_lem buf w (take br (x ∷ xs)) fits fewer) in
        let (is, c) = fill-room buf w (take br (x ∷ xs)) fits fewer is_room in
        Written-then buf filled (take br (x ∷ xs)) left _ c (
          rw (loop-room room, drop_ge br (x ∷ xs) (omega (arith, chunk_size)))
            (filled, ended, is, sym (append-nil (contents filled))))
      where
        ended : write_loop fuel filled (offset_of buf) (next_size 0) [] ≡ some filled
        ended = unfold write_loop in refl

write_loop_lem :
    (fuel : ℕ) (buf : Buffer) (br : ℕ) (bytes : List ℕ)
    → IsBuffer buf
    → length bytes ≤ fuel
    → buf.used + length bytes < 2 ^ 64
    → br ≡ min (length bytes) (block_size - offset_of buf)
    → Written buf bytes (write_loop fuel buf (offset_of buf) br bytes)
unfolding write_loop
write_loop_lem fuel buf br [] w enough small size = (buf, refl, w, sym (append-nil (contents buf)))
write_loop_lem zero buf br (x ∷ xs) w enough small size = absurd (omega arith)
write_loop_lem (suc fuel) buf br (x ∷ xs) w enough small size =
    subst (λ l. Written buf l (write_loop (suc fuel) buf (offset_of buf) br (x ∷ xs)))
      (take-append-drop br (x ∷ xs))
      (elim (Bool-cases ((filled fuel buf br x xs).used % block_size == 0)) [
        | inl full ↦
            let is_full : (filled fuel buf br x xs).used % block_size ≡ 0 = ground arith in
            round-full fuel buf br x xs w small size is_full λ next is same.
              let shorter = rest_size fuel buf br x xs w small size in
              let count = next_used fuel buf br x xs w small size in
              let copied = chunk_size fuel buf br x xs w small size in
              let start : offset_of next ≡ 0 = ap (λ n. n % block_size) same ∙ is_full in
              write_loop_lem fuel next _ (drop br (x ∷ xs)) is (omega (arith, shorter, size))
                (omega (arith, shorter, count, copied, same)) (next_size_lem _ _ start)
        | inr room ↦ round-room fuel buf br x xs w small size room
      ])

-- A write to a well-formed buffer that stays below 2 ^ 64 bytes ends, gives a well-formed
-- buffer, and puts the bytes behind the contents.
pub buffer_write_lem :
    (buf : Buffer) (bytes : List ℕ)
    → IsBuffer buf
    → buf.used + length bytes < 2 ^ 64
    → Written buf bytes (buffer_write buf bytes)
unfolding buffer_write
buffer_write_lem buf bytes w small =
    rw some_room (write_loop_lem (length bytes) buf _ bytes w (omega arith) small (ground arith))
  where
    some_room : (block_size - offset_of buf == 0) ≡ false
    some_room = ground arith
