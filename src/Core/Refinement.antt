-- ===== src/Core/Refinement.antt =====
-- core/*.go against the registry: one module for each of its files.
mod Statement
pub mod Calls
pub mod Transactions
pub mod Tails
pub mod Persons
pub mod Systems
pub mod Associations
pub mod Stewards
pub mod Claims
pub mod Bootstrap
pub use Statement.*
