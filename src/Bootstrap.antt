-- ===== src/Bootstrap.antt =====
-- The bootstrap compiler, libinsomniac_bootstrap.
pub mod Stream
pub mod Output
pub mod Emit
pub mod Frames
pub mod Shape
pub mod Labels
pub mod Names
