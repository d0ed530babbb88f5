-- ===== src/Api.antt =====
-- The JSON API: each handler, as calls of packages core and store and an answer. What encoding/json
-- makes of a request's body is a parameter of a handler.
pub mod Response
pub mod Persons
pub mod Systems
pub mod Associations
pub mod Stewards
pub mod Routes
pub mod Safety
pub mod Records
pub mod Reads
pub mod AuditLog
pub mod Gates
pub mod Reading
pub mod Access
pub mod Export
pub mod Linked
pub mod Exported
pub mod Files
mod Tests
