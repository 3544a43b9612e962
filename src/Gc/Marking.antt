-- ===== src/Gc/Marking.antt =====
-- What marking does to the heap.
mod Change
mod White
mod Search
mod Roots
mod Phase
pub use Change.*
pub use White.*
pub use Search.*
pub use Roots.*
pub use Phase.*
