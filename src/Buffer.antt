-- ===== src/Buffer.antt =====
-- libinsomniac_buffer: elastic buffers of bytes.
pub mod Core
pub mod Contents
pub mod Write
pub mod Read
