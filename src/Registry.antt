-- ===== src/Registry.antt =====
-- The registry as its users see it: what each operation of package core does to the database, said
-- without transactions, statements and failing calls. The texts `now` and `at` are the times that
-- the change and its audit row carry.
mod Change
pub mod Logged
pub mod Persons
pub mod Systems
pub mod Associations
pub mod Stewards
pub mod Tenant
pub mod Requests
pub mod Audited
pub mod Identity
pub mod Valid
pub mod Permanence
pub mod Roles
pub mod Stewardship
pub mod Binding
pub mod Included
pub mod Links
pub mod Errors
pub mod Admission
pub mod Governance
unfoldable pub use Change.*
