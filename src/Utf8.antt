-- ===== src/Utf8.antt =====
-- libinsomniac_vm/vm_utf8.c: characters as bytes.
pub mod Code
pub mod Roundtrip
