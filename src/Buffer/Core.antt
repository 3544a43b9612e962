-- ===== src/Buffer/Core.antt =====
-- buffer_core.c and buffer_load.c.
use insomniac.Base.{
  ℕ, zero, suc, ◌+◌, ◌-◌, ◌%◌, ◌^◌, Option, none, some, List, [], ◌∷◌, ◌++◌, if◌then◌else◌, ltb,
  leb, ◌==◌, length, take, drop, replicate,
}
use mathlib.Core.Option

-- `BLOCK_SIZE`
abbrev pub block_size : ℕ
block_size = 4096

-- `struct buffer`: the blocks from `head` up to the one in front of `tail`, the block at `tail`, and
-- the number of bytes in use. A block is the list of its bytes.
pub record Buffer : Type 0 where
  pub front : List (List ℕ)
  pub tail : List ℕ
  pub used : ℕ

-- a block from the collector, which clears it
abbrev pub new_block : List ℕ
new_block = replicate block_size 0

unfoldable pub buffer_create : Buffer
buffer_create = record { front = []; tail = new_block; used = 0 }

-- the last block stays, with its old bytes
unfoldable pub buffer_reset : Buffer → Buffer
buffer_reset buf = record buf { front = []; used = 0 }

unfoldable pub buffer_push : Buffer → Buffer
buffer_push buf = record buf { front = buf.front ++ buf.tail ∷ []; tail = new_block }

-- `memcpy(&(block[offset]), bytes, length)`
abbrev pub copy_in : List ℕ → ℕ → List ℕ → List ℕ
copy_in block offset bytes = take offset block ++ bytes ++ drop (offset + length bytes) block

-- the copy of one round, with the new number of bytes in use
abbrev pub fill : Buffer → ℕ → List ℕ → Buffer
fill buf write_offset chunk = record buf {
  tail = copy_in buf.tail write_offset chunk;
  used = (buf.used + length chunk) % 2 ^ 64;
}

-- The loop of `buffer_write`; `none` when the fuel is used up. Its end takes the offset and the
-- size of the next copy.
unfoldable pub write_loop : ℕ → Buffer → ℕ → ℕ → List ℕ → Option Buffer
unfolding buffer_push
write_loop fuel buf write_offset block_remaining [] = some buf
write_loop zero buf write_offset block_remaining (b ∷ bs) = none
write_loop (suc fuel) buf write_offset block_remaining (b ∷ bs) =
    let filled = fill buf write_offset (take block_remaining (b ∷ bs)) in
    let rest = drop block_remaining (b ∷ bs) in
    let next = if leb block_size (length rest) then block_size else length rest in
    let pushed = write_loop fuel (buffer_push filled) 0 next rest in
    let kept = write_loop fuel filled write_offset next rest in
    if filled.used % block_size == 0 then pushed else kept

-- `bytes` is what the pointer leads to, `length` bytes of it
unfoldable pub buffer_write : Buffer → List ℕ → Option Buffer
unfolding write_loop buffer_push
buffer_write buf bytes =
    let write_offset = buf.used % block_size in
    let block_remaining = block_size - write_offset in
    let ready = if block_remaining == 0 then buffer_push buf else buf in
    let first = if ltb (length bytes) block_remaining then length bytes else block_remaining in
    write_loop (length bytes) ready write_offset first bytes

-- The loop of `buffer_read` and of `buffer_append`: the pieces to copy, at most a block each.
unfoldable pub pieces : List (List ℕ) → ℕ → List (List ℕ)
pieces [] amount = []
pieces (block ∷ blocks) zero = []
pieces (block ∷ blocks) (suc n) =
    let copy_amount = if leb block_size (suc n) then block_size else suc n in
    take copy_amount block ∷ pieces blocks (suc n - copy_amount)

abbrev pub concat : List (List ℕ) → List ℕ
concat [] = []
concat (xs ∷ xss) = xs ++ concat xss

-- the blocks from `head` on
abbrev pub blocks : Buffer → List (List ℕ)
blocks buf = buf.front ++ buf.tail ∷ []

-- what is copied to `dest`; the function returns its length
unfoldable pub buffer_read : Buffer → ℕ → List ℕ
unfolding pieces
buffer_read buf amount = concat (pieces (blocks buf) amount)

unfoldable pub buffer_size : Buffer → ℕ
buffer_size buf = buf.used

unfoldable pub write_all : Buffer → List (List ℕ) → Option Buffer
unfolding buffer_write
write_all buf [] = some buf
write_all buf (bytes ∷ rest) = Option.bind (buffer_write buf bytes) (λ next. write_all next rest)

-- `src` is another buffer than `buf`; the result is the buffer and the number of bytes
unfoldable pub buffer_append : Buffer → Buffer → ℕ → Option (Buffer × ℕ)
unfolding pieces buffer_size write_all
buffer_append buf src amount =
    let all = if amount == 2 ^ 64 - 1 then buffer_size src else amount in
    let copied = pieces (blocks src) all in
    Option.map (λ next. (next, length (concat copied))) (write_all buf copied)

-- What the calls of `read` give before the one that gives 0, each at most a block; `none` where
-- `open` fails. A `read` that fails is not among them: the loop would take it for a length.
unfoldable pub buffer_load : Buffer → Option (List (List ℕ)) → Option (Buffer × ℕ)
unfolding write_all
buffer_load buf none = some (buf, 2 ^ 64 - 1)
buffer_load buf (some chunks) =
    Option.map (λ next. (next, length (concat chunks) % 2 ^ 64)) (write_all buf chunks)

-- the string with its terminator; `none` where the program exits
unfoldable pub buffer_load_string : Option (List (List ℕ)) → Option (List ℕ × ℕ)
unfolding buffer_create buffer_load buffer_read
buffer_load_string chunks = Option.bind (buffer_load buffer_create chunks) λ loaded.
    if loaded.1 == 2 ^ 64 - 1
    then none
    else some (buffer_read loaded.0 loaded.1 ++ 0 ∷ [], loaded.1)
