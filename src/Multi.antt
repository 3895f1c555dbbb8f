-- ===== src/Multi.antt =====
-- The client over several beacon nodes (package `multi`), one module for each part of it.
pub mod Metrics
pub mod Pool
pub mod Call
pub mod Providers
pub mod New
pub mod Events
pub mod Tests
