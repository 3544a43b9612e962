-- ===== src/Examples/Buffer.antt =====
-- Buffers and characters at concrete inputs.
use insomniac.Base.{◌≡◌, ◌^◌, refl, some, arith, ◌-◌, [], ◌∷◌, ◌++◌}
use insomniac.Buffer.Core.{
  Buffer, buffer_create, buffer_write, buffer_read, buffer_size, buffer_append, buffer_load_string,
}
use insomniac.Buffer.Contents.{IsBuffer, contents, buffer_create-IsBuffer}
use insomniac.Buffer.Write.{Written, buffer_write_lem}
use insomniac.Buffer.Read.{buffer_read-buffer_size, buffer_append_lem, buffer_load_string_lem}
use insomniac.Utf8.Code.{utf8_read_char}
use insomniac.Utf8.Roundtrip.{encoded, utf8_read_char-encoded}

unused : buffer_create.used ≡ 0
unfolding buffer_create
unused = refl

buffer_write_example :
    Written buffer_create (1 ∷ 2 ∷ 3 ∷ []) (buffer_write buffer_create (1 ∷ 2 ∷ 3 ∷ []))
buffer_write_example =
    buffer_write_lem buffer_create (1 ∷ 2 ∷ 3 ∷ []) buffer_create-IsBuffer (omega (arith, unused))

buffer_read-buffer_size_example :
    buffer_read buffer_create (buffer_size buffer_create) ≡ contents buffer_create
buffer_read-buffer_size_example = buffer_read-buffer_size buffer_create buffer_create-IsBuffer

buffer_append_example :
    (b : Buffer) × (buffer_append buffer_create buffer_create (2 ^ 64 - 1)
      ≡ some (b, buffer_create.used))
    × IsBuffer b
    × (contents b ≡ contents buffer_create ++ contents buffer_create)
buffer_append_example =
    buffer_append_lem buffer_create buffer_create buffer_create-IsBuffer buffer_create-IsBuffer
      (omega (arith, unused))

buffer_load_string_example :
    buffer_load_string (some ((1 ∷ []) ∷ (2 ∷ 3 ∷ []) ∷ [])) ≡ some (1 ∷ 2 ∷ 3 ∷ 0 ∷ [], 3)
buffer_load_string_example = buffer_load_string_lem ((1 ∷ []) ∷ (2 ∷ 3 ∷ []) ∷ []) (omega arith)

utf8_read_char-encoded_example : utf8_read_char (encoded 8364 ++ 65 ∷ []) ≡ (8364, 65 ∷ [])
utf8_read_char-encoded_example = utf8_read_char-encoded 8364 (65 ∷ []) (omega arith)
