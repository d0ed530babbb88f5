-- ===== src/System.antt =====
-- The deployment: the routes behind `Authenticate`, and what may happen to a process and its database.
pub mod Requests
pub mod Asked
pub mod Moves
pub mod Steps
pub mod Agreement
pub mod Soundness
pub mod TestData
mod Tests
