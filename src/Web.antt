-- ===== src/Web.antt =====
-- Package web: the forms of the pages, and which pages a visitor is shown. What net/http makes of a
-- form is a parameter of a handler.
pub mod Page
pub mod Forms
pub mod Routes
pub mod Agreement
pub mod Parity
pub mod Landing
pub mod Navigation
pub mod Views
pub mod Rows
pub mod Pages
pub mod Render
pub mod Visits
pub mod Showing
pub mod Visitors
pub mod Twins
pub mod Mirror
mod Tests
