-- ===== src/Double.antt =====
-- Go's `float64`, as an interface: the program's arithmetic and comparisons are the operations of an
-- IEEE 754 type, which the language gives. What the proofs rely on is the order of IEEE 754
-- (`IsOrdered`). The child `Fixed` is a concrete type with these operations that meets the laws.
mod Order
pub use Order.*
pub mod Fixed
