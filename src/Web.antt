-- ===== src/Web.antt =====
-- packages/web/src.
pub mod Html
pub mod Models
pub mod Messages
pub mod Factories
pub mod Views
pub mod Controllers
pub mod Server
pub mod Runtime
