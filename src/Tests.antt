-- ===== src/Tests.antt =====
-- Concrete stores, logs and disks, on which the theorems are applied.
mod Codec
mod Stores
mod EventSourcing
mod Domain
mod Application
mod Cli
mod Web
mod Scripts
