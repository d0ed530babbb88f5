-- ===== src/Store.antt =====
-- Package store: the schema of migrations/0001_initial.sql, the database session with its
-- transactions, one module for each file of statements, and the queries that return many rows.
pub mod Schema
pub mod Session
pub mod Persons
pub mod Systems
pub mod Associations
pub mod Stewards
pub mod PendingStewards
pub mod Tenant
pub mod Listings
pub mod Days
pub mod Audit
pub mod Listed
pub mod DayOrder
pub mod DayTexts
pub mod DayBounds
mod Tests
pub mod Migrations
pub mod Names
pub mod Entries
pub mod Upgrade
pub mod Opening
