-- ===== src/Core.antt =====
-- Package core: the business rules. Every function opens a transaction of its own, and the rest of
-- its body runs under the deferred rollback.
pub mod Audit
pub mod Persons
pub mod Systems
pub mod Associations
pub mod Stewards
pub mod Bootstrap
pub mod Refinement
pub mod Serve
pub mod Identities
pub mod History
pub mod Maintenance
pub mod Tenancy
pub mod TestData
mod Tests
