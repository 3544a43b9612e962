-- ===== src/Hash.antt =====
-- libinsomniac_hash: hash tables.
pub mod Core
pub mod Chain
pub mod Keys
pub mod Placed
pub mod Find
pub mod Set
pub mod Share
pub mod Erase
