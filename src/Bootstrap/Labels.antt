-- ===== src/Bootstrap/Labels.antt =====
-- The labels of the assembler text.
mod Emits
mod Frames
mod Program
pub use Emits.*
pub use Frames.*
pub use Program.*
