-- ===== src/Application.antt =====
-- packages/application: the slices over one shared log of domain events.
pub mod EventStore
pub mod Counter
pub mod User
