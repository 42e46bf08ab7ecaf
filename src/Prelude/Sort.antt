-- ===== src/Prelude/Sort.antt =====
-- Python's `sorted`, a stable sort, by a Boolean order; what it keeps, and what determines it.
mod Insertion
mod Sorted
unfoldable pub use Insertion.{insert_by, sort_by}
pub use Insertion.{IsTotal, IsAntisymmetric}
pub use Sorted.*
