-- ===== src/EventSourcing.antt =====
-- packages/event-sourcing: the mechanics that know nothing of the product.
pub mod Aggregate
pub mod Decision
pub mod EventStore
pub mod Repository
pub mod Projection
pub mod ProjectionStore
