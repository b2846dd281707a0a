-- ===== src/Z3.antt =====
-- The solver library: the interface, what it means that an expression holds, and an implementation.
mod Interface
mod Laws
pub mod Concrete
pub use Interface.*
pub use Laws.*
