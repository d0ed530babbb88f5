-- ===== src/Server.antt =====
-- Package main: the process that puts the other packages together.
pub mod RequestId
pub mod Health
pub mod Middleware
pub mod Version
pub mod Routes
pub mod Running
pub mod Run
pub mod Lifetime
pub mod TestData
mod Tests
