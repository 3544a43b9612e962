-- ===== src/Gc/Sweeping.antt =====
-- What a sweep does to the lists and to the heap.
mod Objects
mod One
mod WellFormed
mod Survive
mod Collect
mod Place
mod Follow
mod Cells
mod Whole
mod Alloc
mod Placed
pub use One.*
pub use Placed.*
pub use Objects.*
pub use WellFormed.*
pub use Survive.*
pub use Collect.*
pub use Place.*
pub use Follow.*
pub use Cells.*
pub use Whole.*
pub use Alloc.*
